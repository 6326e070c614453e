-- ===== src/Roles/Naming.antt =====
-- The digits of a label's number spell it (the labels of src/collegium/roles/skeptic.py, resolver.py
-- and researcher.py).
use collegium.Prelude.{
  ℕ, zero, suc, ◌+◌, ◌-◌, ◌*◌, ◌/◌, ◌%◌, ◌<◌, ◌≡◌, ap, ◌∙◌, [], ◌∷◌, ◌++◌, ◌==◌, Bool-cases, inl,
  inr, arith,
}
use collegium.Text.{Text}
use collegium.Roles.Labels.{digits_from, decimal}

-- The number that digits spell, after a number that was read before them.
abbrev value_from : ℕ → Text → ℕ
value_from n [] = n
value_from n (d ∷ digits) = value_from (n * 10 + (d - 48)) digits

digits_from-value :
    (fuel n : ℕ) (digits : Text)
    → n < fuel
    → value_from 0 (digits_from fuel n digits) ≡ value_from n digits
digits_from-value zero n digits h = absurd (omega arith)
digits_from-value (suc fuel) n digits h = elim (Bool-cases (n / 10 == 0)) [
  | inl e ↦
      let last : 0 * 10 + (48 + n % 10 - 48) ≡ n = ground (arith, e) in
      rw e (ap (λ k. value_from k digits) last)
  | inr e ↦
      let whole : n / 10 * 10 + (48 + n % 10 - 48) ≡ n = omega arith in
      let more = digits_from-value fuel (n / 10) ((48 + n % 10) ∷ digits) (ground (arith, e, h)) in
      rw e (more ∙ ap (λ k. value_from k digits) whole)
]

decimal-value : (n : ℕ) → value_from 0 (decimal n) ≡ n
unfolding decimal
decimal-value n = digits_from-value (suc n) n [] (omega arith)

append-cancel : (p s t : Text) → p ++ s ≡ p ++ t → s ≡ t
append-cancel [] s t e = e
append-cancel (c ∷ p) s t e = append-cancel p s t (cc e)
