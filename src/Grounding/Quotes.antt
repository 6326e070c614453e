-- ===== src/Grounding/Quotes.antt =====
-- A quote that stands in the document is found (`locate_excerpt` and `_normalize` in
-- src/collegium/grounding.py).
use collegium.Prelude.{
  ℕ, zero, suc, ◌+◌, ◌-◌, ◌≤◌, ◌<◌, ◌≡◌, ◌≢◌, refl, ap, Bool, true, false, some, List, [], ◌∷◌,
  ◌++◌, All, length, length-append, arith, Bool-cases, inl, inr, map_option,
}
use collegium.Text.{Text, starts_with, is_space}
use collegium.Grounding.{
  Normalized, quoted, translate, is_ignored, lower_chars, normalize_from, normalize, get, original,
  find_text, is_out_of_bounds, is_empty_text, locate_in, locate_excerpt,
}
use collegium.Grounding.Passages.{IsStretch}

-- There is one place for each character.
abbrev pub IsAligned : Normalized → Type 0
IsAligned n = length n.text ≡ length n.index

-- The letter whose lower case is two code points.
abbrev pub IsPlain : ℕ → Type 0
IsPlain c = c ≢ 304

lower_chars-plain : (c : ℕ) → IsPlain c → length (lower_chars (translate c)) ≡ 1
lower_chars-plain c h = ground arith

normalize_from-IsAligned :
    (i : ℕ) (started pending : Bool) (s : Text)
    → All IsPlain s
    → IsAligned (normalize_from i started pending s)
normalize_from-IsAligned i started pending [] h = refl
normalize_from-IsAligned i started pending (c ∷ s) h =
    let skipped = normalize_from-IsAligned (suc i) started pending s h.1 in
    let spaced = normalize_from-IsAligned (suc i) started started s h.1 in
    let kept = normalize_from-IsAligned (suc i) true false s h.1 in
    let one = lower_chars-plain c h.0 in
    let whole =
      length-append (lower_chars (translate c)) (normalize_from (suc i) true false s).text in
    elim (Bool-cases (is_ignored (translate c))) [
      | inl e ↦ rw e skipped
      | inr e ↦ elim (Bool-cases (is_space (translate c))) [
        | inl f ↦ rw (e, f) spaced
        | inr f ↦ elim (Bool-cases pending) [
          | inl g ↦ rw (e, f, g) (omega (arith, whole, one, kept))
          | inr g ↦ rw (e, f, g) (omega (arith, whole, one, kept))
        ]
      ]
    ]

get-some {ℓ} : {A : Type ℓ} (xs : List A) (i : ℕ) → i < length xs → (x : A) × (get xs i ≡ some x)
get-some [] i h = absurd (omega arith)
get-some (x ∷ xs) zero h = (x, refl)
get-some (x ∷ xs) (suc i) h = get-some xs i (omega arith)

starts_with-append : (p a : Text) → starts_with p (p ++ a) ≡ true
starts_with-append [] a = refl
starts_with-append (c ∷ p) a = ground (arith, starts_with-append p a)

starts_with-le : (p s : Text) → starts_with p s ≡ true → length p ≤ length s
starts_with-le [] s h = omega arith
starts_with-le (c ∷ p) [] h = cc
starts_with-le (c ∷ p) (d ∷ s) h = ground (arith, starts_with-le p s)

find_text-start : (p s : Text) → starts_with p s ≡ true → find_text p s ≡ some 0
find_text-start p [] h = rw h refl
find_text-start p (c ∷ s) h = rw h refl

-- A text that stands in another is found, within it.
find_text-some :
    (p before after : Text)
    → (pos : ℕ) × (find_text p (before ++ (p ++ after)) ≡ some pos)
      × (pos + length p ≤ length (before ++ (p ++ after)))
find_text-some p [] after =
    let here = starts_with-append p after in
    (0, find_text-start p (p ++ after) here, omega (arith, starts_with-le p (p ++ after) here))
find_text-some p (c ∷ before) after =
    elim (Bool-cases (starts_with p (c ∷ (before ++ (p ++ after))))) [
      | inl e ↦ (
        0,
        find_text-start p (c ∷ (before ++ (p ++ after))) e,
        omega (arith, starts_with-le p (c ∷ (before ++ (p ++ after))) e),
      )
      | inr e ↦
          let (pos, found, inside) = find_text-some p before after in
          (suc pos, rw e (ap (map_option suc) found), omega (arith, inside))
    ]

original-quoted :
    (document : Text) (n : Normalized) (start size : ℕ)
    → IsAligned n
    → 1 ≤ size
    → start + size ≤ length n.text
    → (t : Text) × (original document n.index start (start + size) ≡ quoted t)
unfolding original
original-quoted document n start size aligned some_size inside =
    let (a, first) = get-some n.index start (omega (arith, aligned)) in
    let (b, last) = get-some n.index (start + size - 1) (omega (arith, aligned)) in
    rw (first, last) (_, refl)

located :
    (document : Text) (n : Normalized) (ex before after : Text)
    → IsAligned n
    → 1 ≤ length ex
    → n.text ≡ before ++ (ex ++ after)
    → (t : Text) × (locate_in document n ex (find_text ex n.text) ≡ quoted t)
located document n ex before after aligned some_size e =
    let (pos, found, inside) = find_text-some ex before after in
    let found' : find_text ex n.text ≡ some pos = rw e found in
    rw found' (original-quoted document n pos (length ex) aligned some_size (rw e inside))

nonempty :
    (before ex after : Text) → 1 ≤ length ex → is_empty_text (before ++ (ex ++ after)) ≡ false
nonempty [] [] after h = absurd (omega arith)
nonempty [] (c ∷ ex) after h = refl
nonempty (c ∷ before) ex after h = refl

sensible-le : (ex : Text) → is_out_of_bounds ex ≡ false → 1 ≤ length ex
sensible-le ex h = ground arith

-- An excerpt of a sensible length whose normal form stands in that of the document is located, when
-- the document has no capital I with a dot.
pub locate_excerpt-quoted :
    (excerpt document : Text)
    → All IsPlain document
    → is_out_of_bounds (normalize excerpt).text ≡ false
    → IsStretch (normalize excerpt).text (normalize document).text
    → (t : Text) × (locate_excerpt excerpt document ≡ quoted t)
unfolding locate_excerpt normalize
locate_excerpt-quoted excerpt document plain sensible s =
    let ex = (normalize excerpt).text in
    let doc = normalize document in
    let some_size = sensible-le ex sensible in
    let full : is_empty_text doc.text ≡ false =
      rw s.whole (nonempty s.before ex s.after some_size) in
    rw (sensible, full)
      (located document doc ex s.before s.after
        (normalize_from-IsAligned 0 false false document plain) some_size s.whole)
