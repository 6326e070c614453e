-- ===== src/Prelude/Lists.antt =====
-- Lists: lengths and tests over the native numbers, and the least row of an ORDER BY.
use Prim.Native.Nat.{ℕ, zero, suc, ◌+◌, ◌≤◌}
use mathlib.Core.Path.{◌≡◌, refl, sym, ap, ◌∙◌, subst}
use mathlib.Core.Logic.{inl, inr}
use mathlib.Core.Bool.{Bool, true, false, ◌&&◌, ◌||◌}
use mathlib.Core.Option.{Option, none, some, some-injective}
use mathlib.Core.List.{List, [], ◌∷◌, ◌++◌, Memᴰ}
use native.Mathlib.Omega.{arith}
use collegium.Prelude.Tests.{if◌then◌else◌, Bool-cases, Option-cases}

module _ {ℓ} {A : Type ℓ} where
  abbrev pub length : List A → ℕ
  length [] = 0
  length (x ∷ xs) = suc (length xs)

  abbrev pub take : ℕ → List A → List A
  take zero xs = []
  take (suc n) [] = []
  take (suc n) (x ∷ xs) = x ∷ take n xs

  -- `[x for x in xs if p(x)]`
  abbrev pub filter : (A → Bool) → List A → List A
  filter p [] = []
  filter p (x ∷ xs) = let rest = filter p xs in if p x then x ∷ rest else rest

  abbrev pub any : (A → Bool) → List A → Bool
  any p [] = false
  any p (x ∷ xs) = p x || any p xs

  abbrev pub all : (A → Bool) → List A → Bool
  all p [] = true
  all p (x ∷ xs) = p x && all p xs

  -- The first row that passes.
  abbrev pub find : (A → Bool) → List A → Option A
  find p [] = none
  find p (x ∷ xs) = let rest = find p xs in if p x then some x else rest

  abbrev pub All {κ} : (A → Type κ) → List A → Type κ
  All P [] = Unit
  All P (x ∷ xs) = P x × All P xs

  pub length-append : (xs ys : List A) → length (xs ++ ys) ≡ length xs + length ys
  length-append [] ys = omega arith
  length-append (x ∷ xs) ys = omega (arith, length-append xs ys)

  pub length-filter-le : (p : A → Bool) (xs : List A) → length (filter p xs) ≤ length xs
  length-filter-le p [] = omega arith
  length-filter-le p (x ∷ xs) = ground (arith, length-filter-le p xs)

  pub length-take-le : (n : ℕ) (xs : List A) → length (take n xs) ≤ n
  length-take-le zero xs = omega arith
  length-take-le (suc n) [] = omega arith
  length-take-le (suc n) (x ∷ xs) = omega (arith, length-take-le n xs)

  pub All-append {κ} : (P : A → Type κ) (xs ys : List A) → All P xs → All P ys → All P (xs ++ ys)
  All-append P [] ys hx hy = hy
  All-append P (x ∷ xs) ys hx hy = (hx.0, All-append P xs ys hx.1 hy)

  pub All-map {κ μ} :
      {P : A → Type κ} {Q : A → Type μ} (xs : List A) → ((a : A) → P a → Q a) → All P xs → All Q xs
  All-map [] f h = tt
  All-map (x ∷ xs) f h = (f x h.0, All-map xs f h.1)

  pub All-filter : (p : A → Bool) (xs : List A) → All (λ x. p x ≡ true) (filter p xs)
  All-filter p [] = tt
  All-filter p (x ∷ xs) = elim (Bool-cases (p x)) [
    | inl e ↦ rw e (e, All-filter p xs)
    | inr e ↦ rw e (All-filter p xs)
  ]

-- `ORDER BY … LIMIT 1`: the first row that no other row comes before.
module _ {ℓ} {A : Type ℓ} (before : A → A → Bool) where
  abbrev least_of : A → Option A → A
  least_of x none = x
  least_of x (some y) = if before y x then y else x

  unfoldable pub least : List A → Option A
  least [] = none
  least (x ∷ xs) = some (least_of x (least xs))

  pub least-none : (xs : List A) → least xs ≡ none → xs ≡ []
  unfolding least
  least-none [] e = refl
  least-none (x ∷ xs) e = cc

  pub least-mem : (xs : List A) {m : A} → least xs ≡ some m → Memᴰ m xs
  unfolding least
  least-mem [] e = cc
  least-mem (x ∷ xs) {m} e = elim (Option-cases (least xs)) [
    | inl none_left ↦ Memᴰ.head (rw none_left at (some-injective _ _ (sym e)))
    | inr (y, found) ↦ elim (Bool-cases (before y x)) [
      | inl first ↦ Memᴰ.tail (least-mem xs (found ∙ ground (arith, found)))
      | inr later ↦ Memᴰ.head (ground (arith, found))
    ]
  ]

  -- Where `before` is a weak order, no row comes before the least one.
  module _
      (before_trans : (x y z : A) → before y x ≡ false → before z y ≡ false → before z x ≡ false)
      (before_asym : (x y : A) → before y x ≡ true → before x y ≡ false)
      (before_irrefl : (x : A) → before x x ≡ false) where
    pub least-first : (xs : List A) {m : A} → least xs ≡ some m → All (λ y. before y m ≡ false) xs
    unfolding least
    least-first [] e = tt
    least-first (x ∷ xs) {m} e = elim (Option-cases (least xs)) [
      | inl none_left ↦
          let only : x ≡ m = ground (arith, none_left) in
          subst First only (before_irrefl x, rw (least-none xs none_left) tt)
      | inr (y, found) ↦ elim (Bool-cases (before y x)) [
        | inl earlier ↦
            let won : y ≡ m = ground (arith, found, earlier) in
            subst First won (before_asym x y earlier, least-first xs found)
        | inr later ↦
            let kept : x ≡ m = ground (arith, found, later) in
            subst First kept
              (before_irrefl x, All-map xs (λ z. before_trans x y z later) (least-first xs found))
      ]
    ]
      where
        First : A → Type 0
        First n = All (λ z. before z n ≡ false) (x ∷ xs)

-- `sorted` and ORDER BY: insertion, so equal rows keep their order.
module _ {ℓ} {A : Type ℓ} (before : A → A → Bool) where
  abbrev pub insert_sorted : A → List A → List A
  insert_sorted x [] = x ∷ []
  insert_sorted x (y ∷ ys) =
      let later = insert_sorted x ys in if before y x then y ∷ later else x ∷ y ∷ ys

  unfoldable pub sort : List A → List A
  sort [] = []
  sort (x ∷ xs) = insert_sorted x (sort xs)

pub mem-append_left {ℓ} : {A : Type ℓ} (a : A) (xs ys : List A) → Memᴰ a xs → Memᴰ a (xs ++ ys)
mem-append_left a [] ys m = elim m [ ]
mem-append_left a (x ∷ xs) ys (Memᴰ.head e) = Memᴰ.head e
mem-append_left a (x ∷ xs) ys (Memᴰ.tail m) = Memᴰ.tail (mem-append_left a xs ys m)

pub mem-append_last {ℓ} : {A : Type ℓ} (a : A) (xs : List A) → Memᴰ a (xs ++ a ∷ [])
mem-append_last a [] = Memᴰ.head refl
mem-append_last a (x ∷ xs) = Memᴰ.tail (mem-append_last a xs)

pub append_one {ℓ} :
    {A : Type ℓ} (xs : List A) (a : A) (ys : List A) → (xs ++ a ∷ []) ++ ys ≡ xs ++ a ∷ ys
append_one [] a ys = refl
append_one (x ∷ xs) a ys = ap (◌∷◌ x) (append_one xs a ys)

-- What holds of each member holds of all.
pub All-mems {ℓ κ} :
    {A : Type ℓ} {P : A → Type κ} (xs : List A) → ((a : A) → Memᴰ a xs → P a) → All P xs
All-mems [] f = tt
All-mems (x ∷ xs) f = (f x (Memᴰ.head refl), All-mems xs (λ a m. f a (Memᴰ.tail m)))
