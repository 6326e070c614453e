-- ===== src/Prelude/Keys.antt =====
-- Tables with a primary key.
use Prim.Native.Nat.{ℕ, suc, ◌<◌}
use mathlib.Core.Path.{◌≡◌, refl, sym, ap, ◌∙◌}
use mathlib.Core.Logic.{◌≢◌, inl, inr}
use mathlib.Core.Bool.{Bool}
use mathlib.Core.List.{List, [], ◌∷◌, ◌++◌, Memᴰ}
use native.Mathlib.Omega.{arith}
use collegium.Prelude.Tests.{map_option, Bool-cases, ◌==◌}
use collegium.Prelude.Lists.{find, All, All-append, All-map}
use collegium.Prelude.Tables.{update_where}

module _ {Row : Type 0} (key : Row → ℕ) where
  -- No two rows have the same key.
  abbrev pub Unique : List Row → Type 0
  Unique [] = Unit
  Unique (r ∷ rows) = All (λ s. key s ≢ key r) rows × Unique rows

  -- The keys so far are below the next one.
  abbrev pub Below : ℕ → List Row → Type 0
  Below n rows = All (λ s. key s < n) rows

  pub Below-suc : (n : ℕ) (rows : List Row) → Below n rows → Below (suc n) rows
  Below-suc n rows h = All-map rows (λ r p. omega arith) h

  pub update_where_absent :
      (k : ℕ) (change : Row → Row) (rows : List Row)
      → All (λ s. key s ≢ k) rows
      → update_where (λ s. key s == k) change rows ≡ rows
  update_where_absent k change [] h = refl
  update_where_absent k change (r ∷ rows) h = ground (arith, update_where_absent k change rows h.1)

  pub key_of_mem :
      (k : ℕ) (r : Row) (rows : List Row) → All (λ s. key s ≢ k) rows → Memᴰ r rows → key r ≢ k
  key_of_mem k r [] h m = elim m [ ]
  key_of_mem k r (s ∷ rows) h (Memᴰ.head e) = λ same. h.0 (ap key (sym e) ∙ same)
  key_of_mem k r (s ∷ rows) h (Memᴰ.tail m) = key_of_mem k r rows h.1 m

  -- An UPDATE by key keeps what holds of all rows, when it keeps it of the one row with that key.
  pub All-update_key :
      (P : Row → Type 0) (change : Row → Row) (r : Row) (rows : List Row)
      → Memᴰ r rows
      → Unique rows
      → (P r → P (change r))
      → All P rows
      → All P (update_where (λ s. key s == key r) change rows)
  All-update_key P change r [] m u keep h = elim m [ ]
  All-update_key P change r (s ∷ rows) (Memᴰ.head e) u keep h =
      let others : All (λ t. key t ≢ key r) rows = rw e u.0 in
      rw (update_where_absent (key r) change rows others) (ground (arith, keep (rw e h.0)), h.1)
  All-update_key P change r (s ∷ rows) (Memᴰ.tail m) u keep h =
      let other = key_of_mem (key s) r rows u.0 m in
      (ground arith, All-update_key P change r rows m u.1 keep h.1)

  module _ (here : Row → Bool) (change : Row → Row)
      (same : (r : Row) → key (change r) ≡ key r) where
    key-All-update_where :
        (Q : ℕ → Type 0) (rows : List Row)
        → All (λ s. Q (key s)) rows
        → All (λ s. Q (key s)) (update_where here change rows)
    key-All-update_where Q [] h = tt
    key-All-update_where Q (r ∷ rows) h = elim (Bool-cases (here r)) [
      | inl e ↦ rw e (rw (same r) h.0, key-All-update_where Q rows h.1)
      | inr e ↦ rw e (h.0, key-All-update_where Q rows h.1)
    ]

    pub update_where-Below :
        (n : ℕ) (rows : List Row) → Below n rows → Below n (update_where here change rows)
    update_where-Below n rows h = key-All-update_where (λ k. k < n) rows h

    pub update_where-Unique :
        (rows : List Row) → Unique rows → Unique (update_where here change rows)
    update_where-Unique [] h = tt
    update_where-Unique (r ∷ rows) h = elim (Bool-cases (here r)) [
      | inl e ↦ rw e (
        rw (same r) (key-All-update_where (λ k. k ≢ key r) rows h.0),
        update_where-Unique rows h.1,
      )
      | inr e ↦ rw e (key-All-update_where (λ k. k ≢ key r) rows h.0, update_where-Unique rows h.1)
    ]

  pub append-Unique :
      (n : ℕ) (r : Row) (rows : List Row)
      → key r ≡ n
      → Below n rows
      → Unique rows
      → Unique (rows ++ r ∷ [])
  append-Unique n r [] e b u = (tt, tt)
  append-Unique n r (s ∷ rows) e b u =
      (All-append _ rows (r ∷ []) u.0 (omega arith, tt), append-Unique n r rows e b.1 u.1)

  -- A key stands for one row.
  pub eq_of_key :
      (a b : Row) (rows : List Row)
      → Unique rows
      → Memᴰ a rows
      → Memᴰ b rows
      → key a ≡ key b
      → a ≡ b
  eq_of_key a b [] u m n e = elim m [ ]
  eq_of_key a b (s ∷ rows) u (Memᴰ.head p) (Memᴰ.head q) e = p ∙ sym q
  eq_of_key a b (s ∷ rows) u (Memᴰ.head p) (Memᴰ.tail n) e =
      absurd (key_of_mem (key s) b rows u.0 n (sym e ∙ ap key p))
  eq_of_key a b (s ∷ rows) u (Memᴰ.tail m) (Memᴰ.head q) e =
      absurd (key_of_mem (key s) a rows u.0 m (e ∙ ap key q))
  eq_of_key a b (s ∷ rows) u (Memᴰ.tail m) (Memᴰ.tail n) e = eq_of_key a b rows u.1 m n e

  -- A lookup by key after an UPDATE by key.
  module _ (k : ℕ) (change : Row → Row) (same : (r : Row) → key (change r) ≡ key r) where
    pub find-update_self :
        (rows : List Row)
        → find (λ s. key s == k) (update_where (λ s. key s == k) change rows)
          ≡ map_option change (find (λ s. key s == k) rows)
    find-update_self [] = refl
    find-update_self (r ∷ rows) = ground (arith, same r, find-update_self rows)

    pub find-update_ne :
        (j : ℕ) (rows : List Row)
        → j ≢ k
        → find (λ s. key s == j) (update_where (λ s. key s == k) change rows)
          ≡ find (λ s. key s == j) rows
    find-update_ne j [] ne = refl
    find-update_ne j (r ∷ rows) ne = ground (arith, same r, find-update_ne j rows)
