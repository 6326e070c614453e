-- ===== src/Prelude/Tables.antt =====
-- Database tables as lists of rows.
use Prim.Native.Nat.{ℕ, suc}
use mathlib.Core.Path.{◌≡◌, refl, ap, ap₂}
use mathlib.Core.Logic.{inl, inr}
use mathlib.Core.Bool.{Bool, true, false}
use mathlib.Core.List.{List, [], ◌∷◌, map}
use collegium.Prelude.Tests.{if◌then◌else◌, Bool-cases}
use collegium.Prelude.Lists.{All}

module _ {ℓ} {Row : Type ℓ} where
  -- `UPDATE table SET … WHERE …`
  abbrev pub update_where : (Row → Bool) → (Row → Row) → List Row → List Row
  update_where here change [] = []
  update_where here change (r ∷ rows) =
      (if here r then change r else r) ∷ update_where here change rows

  -- How many rows the UPDATE touches: psycopg's `rowcount`.
  abbrev pub count_where : (Row → Bool) → List Row → ℕ
  count_where here [] = 0
  count_where here (r ∷ rows) = let n = count_where here rows in if here r then suc n else n

  -- An UPDATE keeps what holds of every row, when the change keeps it on the rows it touches.
  pub All-update_where {κ} :
      (P : Row → Type κ) (here : Row → Bool) (change : Row → Row) (rows : List Row)
      → ((r : Row) → here r ≡ true → P r → P (change r))
      → All P rows
      → All P (update_where here change rows)
  All-update_where P here change [] keep h = tt
  All-update_where P here change (r ∷ rows) keep h = elim (Bool-cases (here r)) [
    | inl e ↦ rw e (keep r e h.0, All-update_where P here change rows keep h.1)
    | inr e ↦ rw e (h.0, All-update_where P here change rows keep h.1)
  ]

  -- A column that the change leaves alone is as before.
  pub map-update_where {κ} :
      {B : Type κ} (column : Row → B) (here : Row → Bool) (change : Row → Row) (rows : List Row)
      → ((r : Row) → column (change r) ≡ column r)
      → map column (update_where here change rows) ≡ map column rows
  map-update_where column here change [] keep = refl
  map-update_where column here change (r ∷ rows) keep = elim (Bool-cases (here r)) [
    | inl e ↦ rw e (ap₂ ◌∷◌ (keep r) (map-update_where column here change rows keep))
    | inr e ↦ rw e (ap (◌∷◌ (column r)) (map-update_where column here change rows keep))
  ]

  -- What holds after an UPDATE, when the change brings it about and it holds of the other rows.
  pub update_where-All {κ μ} :
      (P : Row → Type κ) (Q : Row → Type μ) (here : Row → Bool) (change : Row → Row)
      (rows : List Row)
      → ((r : Row) → here r ≡ true → P r → Q (change r))
      → ((r : Row) → here r ≡ false → P r → Q r)
      → All P rows
      → All Q (update_where here change rows)
  update_where-All P Q here change [] made kept h = tt
  update_where-All P Q here change (r ∷ rows) made kept h = elim (Bool-cases (here r)) [
    | inl e ↦ rw e (made r e h.0, update_where-All P Q here change rows made kept h.1)
    | inr e ↦ rw e (kept r e h.0, update_where-All P Q here change rows made kept h.1)
  ]

  pub All-any : (rows : List Row) → All (λ r. r ≡ r) rows
  All-any [] = tt
  All-any (r ∷ rows) = (refl, All-any rows)
