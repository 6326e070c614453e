-- ===== src/Prelude/Filters.antt =====
-- What passes a filter, and what does not.
use mathlib.Core.Path.{◌≡◌, refl, sym, subst}
use mathlib.Core.Logic.{inl, inr}
use mathlib.Core.Bool.{Bool, true, false, ◌&&◌}
use mathlib.Core.List.{List, [], ◌∷◌, map, Memᴰ}
use collegium.Prelude.Tests.{Bool-cases}
use collegium.Prelude.Lists.{All, filter}

module _ {ℓ} {A : Type ℓ} (p : A → Bool) where
  passed :
      (a x : A) (xs kept : List A)
      → p x ≡ true
      → (Memᴰ a kept → Memᴰ a xs × (p a ≡ true))
      → Memᴰ a (x ∷ kept)
      → Memᴰ a (x ∷ xs) × (p a ≡ true)
  passed a x xs kept e ih (Memᴰ.head q) = (Memᴰ.head q, rw q e)
  passed a x xs kept e ih (Memᴰ.tail m) = (Memᴰ.tail (ih m).0, (ih m).1)

  pub mem-filter : (a : A) (xs : List A) → Memᴰ a (filter p xs) → Memᴰ a xs × (p a ≡ true)
  mem-filter a [] m = elim m [ ]
  mem-filter a (x ∷ xs) m = elim (Bool-cases (p x)) [
    | inl e ↦ passed a x xs (filter p xs) e (mem-filter a xs) (rw e at m)
    | inr e ↦ let (inside, holds) = mem-filter a xs (rw e at m) in (Memᴰ.tail inside, holds)
  ]

  -- What holds of the rows that pass holds of every row that passes.
  pub All-of-filter :
      (q : A → Bool) (xs : List A)
      → All (λ x. q x ≡ false) (filter p xs)
      → All (λ x. (p x && q x) ≡ false) xs
  All-of-filter q [] h = tt
  All-of-filter q (x ∷ xs) h = elim (Bool-cases (p x)) [
    | inl e ↦ let h' = rw e at h in (rw e h'.0, All-of-filter q xs h'.1)
    | inr e ↦ (rw e, All-of-filter q xs (rw e at h))
  ]

  pub filter_nil : (xs : List A) → filter p xs ≡ [] → All (λ x. p x ≡ false) xs
  filter_nil [] e = tt
  filter_nil (x ∷ xs) e = elim (Bool-cases (p x)) [
    | inl pass ↦ absurd (cc (rw pass at e))
    | inr stop ↦ (stop, filter_nil xs (rw stop at e))
  ]

pub mem_of_map {ℓ κ} :
    {A : Type ℓ} {B : Type κ} (f : A → B) (b : B) (xs : List A)
    → Memᴰ b (map f xs)
    → (a : A) × Memᴰ a xs × (f a ≡ b)
mem_of_map f b [] m = elim m [ ]
mem_of_map f b (x ∷ xs) (Memᴰ.head e) = (x, Memᴰ.head refl, sym e)
mem_of_map f b (x ∷ xs) (Memᴰ.tail m) =
    let (a, inside, e) = mem_of_map f b xs m in (a, Memᴰ.tail inside, e)

pub All-mem {ℓ κ} : {A : Type ℓ} (P : A → Type κ) (a : A) (xs : List A) → Memᴰ a xs → All P xs → P a
All-mem P a [] m h = elim m [ ]
All-mem P a (x ∷ xs) (Memᴰ.head e) h = subst P (sym e) h.0
All-mem P a (x ∷ xs) (Memᴰ.tail m) h = All-mem P a xs m h.1
