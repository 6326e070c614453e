-- ===== src/Grounding/Blocks.antt =====
-- The rounds of the matching blocks (src/collegium/grounding.py, of difflib's SequenceMatcher).
use collegium.Prelude.{
  ℕ, zero, suc, ◌+◌, ◌-◌, ◌≤◌, ◌<◌, ◌≡◌, refl, [], ◌∷◌, length, take, length-take-le, arith,
  Bool-cases, inl, inr, ltb, ◌==◌,
}
use collegium.Text.{Text, drop}
use collegium.Grounding.Matching.{
  Block, common_prefix, longer, longest_from, longest_over, find_longest_match, matching_blocks,
}

common_prefix-le : (s t : Text) → common_prefix s t ≤ length t
common_prefix-le [] t = omega arith
common_prefix-le (c ∷ s) [] = omega arith
common_prefix-le (c ∷ s) (d ∷ t) = ground (arith, common_prefix-le s t)

longer-if {ℓ} : (P : Block → Type ℓ) (x y : Block) → P x → P y → P (longer x y)
longer-if P x y h k = elim (Bool-cases (ltb x.size y.size)) [ inl e ↦ rw e k | inr e ↦ rw e h ]

longest_from-le :
    (i j : ℕ) (s t : Text) → (longest_from i j s t).b + (longest_from i j s t).size ≤ j + length t
longest_from-le i j s [] = omega arith
longest_from-le i j s (d ∷ t) =
    let x : Block = record { a = i; b = j; size = common_prefix s (d ∷ t) } in
    longer-if (λ y. y.b + y.size ≤ j + length (d ∷ t)) x (longest_from i (suc j) s t)
      (omega (arith, common_prefix-le s (d ∷ t))) (omega (arith, longest_from-le i (suc j) s t))

-- The block lies within the second text.
longest_over-le :
    (i : ℕ) (s t : Text) → (longest_over i s t).b + (longest_over i s t).size ≤ length t
longest_over-le i [] t = omega arith
longest_over-le i (c ∷ s) t =
    longer-if (λ y. y.b + y.size ≤ length t) (longest_from i 0 (c ∷ s) t) (longest_over (suc i) s t)
      (omega (arith, longest_from-le i 0 (c ∷ s) t)) (longest_over-le (suc i) s t)

length-drop : (n : ℕ) (s : Text) → length (drop n s) ≡ length s - n
length-drop zero s = omega arith
length-drop (suc n) [] = omega arith
length-drop (suc n) (c ∷ s) = omega (arith, length-drop n s)

-- Any two numbers of rounds above the length of the second text give the same blocks: with one more
-- round than the excerpt has characters, the recursion is never cut short.
pub matching_blocks-enough :
    (f g da db : ℕ) (s t : Text)
    → length t < f
    → length t < g
    → matching_blocks f da db s t ≡ matching_blocks g da db s t
unfolding matching_blocks find_longest_match
matching_blocks-enough zero g da db s t h k = absurd (omega arith)
matching_blocks-enough (suc f) zero da db s t h k = absurd (omega arith)
matching_blocks-enough (suc f) (suc g) da db s t h k =
    let x = longest_over 0 s t in
    elim (Bool-cases (x.size == 0)) [
      | inl e ↦ rw e refl
      | inr e ↦
          let inside = longest_over-le 0 s t in
          let left = length-take-le x.b t in
          let right = length-drop (x.b + x.size) t in
          rw
            (
              e,
              matching_blocks-enough f g da db (take x.a s) (take x.b t) (ground arith)
                  (ground arith),
              matching_blocks-enough f g (da + (x.a + x.size)) (db + (x.b + x.size))
                  (drop (x.a + x.size) s) (drop (x.b + x.size) t) (ground arith) (ground arith),
            )
            refl
    ]
