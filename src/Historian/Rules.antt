-- ===== src/Historian/Rules.antt =====
-- `decide` (src/collegium/roles/historian.py) against the rules it is documented by.
use collegium.Prelude.{
  ℕ, ◌≤◌, ◌<◌, ◌≡◌, ◌≢◌, ◌↔◌, ◌⊎◌, refl, subst, sym, true, false, Option, none, some, List, [], ◌∷◌,
  arith, Bool-cases, inl, inr, All, any,
}
use mathlib.Core.Option.{some-injective}
use collegium.Jobs.{Verdict, reject}
use collegium.Memory.{open_, upheld, accepted, Critique}
use collegium.Historian.{is_blocking, is_fatal, is_empty, blocking, decide}

-- The critique does not stand in the way: it is settled in the hypothesis's favour, or it is minor.
abbrev pub IsHarmless : Critique → Type 0
IsHarmless c = ((c.status ≢ open_) × (c.status ≢ upheld)) ⊎ (c.severity < 3)

harmless-not_blocking : (c : Critique) → IsHarmless c → is_blocking c ≡ false
harmless-not_blocking c h = ground arith

IsHarmless-of_not_blocking : (c : Critique) → is_blocking c ≡ false → IsHarmless c
IsHarmless-of_not_blocking c e = ground arith

blocking_empty : (ks : List Critique) → All IsHarmless ks → is_empty (blocking ks) ≡ true
blocking_empty [] h = refl
blocking_empty (k ∷ ks) h = rw (harmless-not_blocking k h.0) (blocking_empty ks h.1)

IsHarmless-of_empty : (ks : List Critique) → is_empty (blocking ks) ≡ true → All IsHarmless ks
IsHarmless-of_empty [] e = tt
IsHarmless-of_empty (k ∷ ks) e = elim (Bool-cases (is_blocking k)) [
  | inl stands ↦ absurd (cc (rw stands at e))
  | inr fine ↦ (IsHarmless-of_not_blocking k fine, IsHarmless-of_empty ks (rw fine at e))
]

-- A fatal critique is a blocking one.
not_fatal : (ks : List Critique) → All IsHarmless ks → any is_fatal ks ≡ false
not_fatal [] h = refl
not_fatal (k ∷ ks) h = ground (arith, h.0, not_fatal ks h.1)

-- The conditions of an acceptance.
pub record Deserves (verdict : Verdict) (confidence sources : ℕ) (ks : List Critique) : Type 0 where
  pub not_vetoed : verdict ≢ reject
  pub confident : 600 ≤ confidence
  pub independent : 2 ≤ sources
  pub unblocked : All IsHarmless ks

Deserves-of_accepted :
    (verdict : Verdict) (confidence sources : ℕ) (ks : List Critique)
    → decide verdict (some confidence) sources ks ≡ accepted
    → Deserves verdict confidence sources ks
unfolding decide
Deserves-of_accepted verdict confidence sources ks e = record {
  not_vetoed = ground arith;
  confident = ground arith;
  independent = ground arith;
  unblocked = IsHarmless-of_empty ks (ground arith);
}

accepted_of_Deserves :
    (verdict : Verdict) (confidence sources : ℕ) (ks : List Critique)
    → Deserves verdict confidence sources ks
    → decide verdict (some confidence) sources ks ≡ accepted
unfolding decide
accepted_of_Deserves verdict confidence sources ks d =
    ground (arith, blocking_empty ks d.unblocked, not_fatal ks d.unblocked)

-- A hypothesis is accepted exactly when it has been assessed at 0.6 or more, has support from at
-- least two independent sites, no critique of severity 3 or more is open or upheld, and the Skeptic
-- does not reject it.
pub decide-accepted_iff :
    (verdict : Verdict) (confidence : Option ℕ) (sources : ℕ) (ks : List Critique)
    → (decide verdict confidence sources ks ≡ accepted)
      ↔ ((c : ℕ) × (confidence ≡ some c) × Deserves verdict c sources ks)
decide-accepted_iff verdict none sources ks = (λ e. absurd (unfold decide in cc e), λ d. cc (d.1))
decide-accepted_iff verdict (some c) sources ks = (
  λ e. (c, refl, Deserves-of_accepted verdict c sources ks e),
  λ d.
      accepted_of_Deserves verdict c sources ks
        (subst (λ x. Deserves verdict x sources ks) (sym (some-injective c d.0 d.1)) d.2),
)
