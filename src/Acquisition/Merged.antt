-- ===== src/Acquisition/Merged.antt =====
-- Each address once, and none lost (`interleave` in src/collegium/acquisition/__init__.py).
use collegium.Prelude.{
  mem-append_left, ℕ, zero, suc, ◌+◌, ◌≤◌, ◌<◌, ◌≡◌, refl, sym, Bool, true, false, ◌||◌, some, List,
  [], ◌∷◌, ◌++◌, All, All-mem, All-map, ==_iff, ◌==◌, Memᴰ, Bool-cases, Option-cases, inl, inr,
  arith, length, subst,
}
use collegium.Text.{Text, text_eq, text_eq_iff, text_in}
use collegium.Acquisition.Merging.{Lead, nth, column, columns, longest, unseen, interleave, urls_of}

-- No two leads have the same address.
abbrev pub Once : List Lead → Type 0
Once [] = Unit
Once (l ∷ results) = All (λ (k : Lead). text_eq k.url l.url ≡ false) results × Once results

right_false : (a b : Bool) → (a || b) ≡ false → b ≡ false
right_false a b h = ground (arith, h)

left_false : (a b : Bool) → (a || b) ≡ false → a ≡ false
left_false a b h = ground (arith, h)

moved : (a b c : Bool) → ((a || b) || c) ≡ true → (b || (a || c)) ≡ true
moved a b c h = ground (arith, h)

mem-right {ℓ} : {A : Type ℓ} (a : A) (xs ys : List A) → Memᴰ a ys → Memᴰ a (xs ++ ys)
mem-right a [] ys m = m
mem-right a (x ∷ xs) ys m = Memᴰ.tail (mem-right a xs ys m)

unseen-fresh :
    (seen : List Text) (results : List Lead)
    → All (λ (l : Lead). text_in seen l.url ≡ false) (unseen seen results)
unseen-fresh seen [] = tt
unseen-fresh seen (l ∷ results) = elim (Bool-cases (text_in seen l.url)) [
  | inl e ↦ rw e (unseen-fresh seen results)
  | inr e ↦ rw e (
      (
        e,
        All-map (unseen (l.url ∷ seen) results)
            (λ (k : Lead) h. right_false (text_eq k.url l.url) (text_in seen k.url) h)
            (unseen-fresh (l.url ∷ seen) results),
      ))
]

unseen-Once : (seen : List Text) (results : List Lead) → Once (unseen seen results)
unseen-Once seen [] = tt
unseen-Once seen (l ∷ results) = elim (Bool-cases (text_in seen l.url)) [
  | inl e ↦ rw e (unseen-Once seen results)
  | inr e ↦ rw e (
      (
        All-map (unseen (l.url ∷ seen) results)
            (λ (k : Lead) h. left_false (text_eq k.url l.url) (text_in seen k.url) h)
            (unseen-fresh (l.url ∷ seen) results),
        unseen-Once (l.url ∷ seen) results,
      ))
]

-- The address was seen before, or it is there.
abbrev IsShown : List Text → List Lead → Lead → Type 0
IsShown seen shown l = (text_in seen l.url || text_in (urls_of shown) l.url) ≡ true

unseen-IsShown :
    (seen : List Text) (results : List Lead) → All (IsShown seen (unseen seen results)) results
unseen-IsShown seen [] = tt
unseen-IsShown seen (l ∷ results) = elim (Bool-cases (text_in seen l.url)) [
  | inl e ↦
      let dropped : unseen seen (l ∷ results) ≡ unseen seen results = rw e refl in
      (
        rw e refl,
        subst (λ shown. All (IsShown seen shown) results) (sym dropped)
            (unseen-IsShown seen results),
      )
  | inr e ↦
      let same : text_eq l.url l.url ≡ true = (text_eq_iff l.url l.url).1 refl in
      let after = unseen (l.url ∷ seen) results in
      let kept : unseen seen (l ∷ results) ≡ l ∷ after = rw e refl in
      let shown_here : IsShown seen (l ∷ after) l = rw (e, same) refl in
      subst (λ shown. IsShown seen shown l × All (IsShown seen shown) results) (sym kept)
        ((
          shown_here,
          All-map results
              (λ (k : Lead) h.
                moved (text_eq k.url l.url) (text_in seen k.url) (text_in (urls_of after) k.url) h)
              (unseen-IsShown (l.url ∷ seen) results),
        ))
]

column-mem :
    (i : ℕ) (lists : List (List Lead)) (results : List Lead) (l : Lead)
    → Memᴰ results lists
    → nth i results ≡ some l
    → Memᴰ l (column i lists)
column-mem i [] results l m e = elim m [ ]
column-mem i (first ∷ lists) results l (Memᴰ.head same) e =
    let here : nth i first ≡ some l = rw (sym same) e in rw (here, column) (Memᴰ.head refl)
column-mem i (first ∷ lists) results l (Memᴰ.tail m) e =
    let later = column-mem i lists results l m e in
    elim (Option-cases (nth i first)) [
      | inl absent ↦ rw (absent, column) later
      | inr found ↦ rw (found.1, column) (Memᴰ.tail later)
    ]

columns-mem :
    (n i k : ℕ) (lists : List (List Lead)) (results : List Lead) (l : Lead)
    → i ≤ k
    → k < i + n
    → Memᴰ results lists
    → nth k results ≡ some l
    → Memᴰ l (columns n i lists)
columns-mem zero i k lists results l le lt m e = absurd (omega (arith, le, lt))
columns-mem (suc n) i k lists results l le lt m e = elim (Bool-cases (i == k)) [
  | inl same ↦
      mem-append_left l (column i lists) (columns n (suc i) lists)
        (column-mem i lists results l m (rw ((==_iff i k).0 same) e))
  | inr other ↦
      mem-right l (column i lists) (columns n (suc i) lists) (
        columns-mem n (suc i) k lists results l (ground (arith, le, other)) (omega (arith, lt)) m e)
]

nth-lt : (k : ℕ) (results : List Lead) (l : Lead) → nth k results ≡ some l → k < length results
nth-lt k [] l e = absurd (cc e)
nth-lt zero (x ∷ results) l e = omega arith
nth-lt (suc k) (x ∷ results) l e = omega (arith, nth-lt k results l e)

longest-le :
    (lists : List (List Lead)) (results : List Lead)
    → Memᴰ results lists
    → length results ≤ longest lists
longest-le [] results m = elim m [ ]
longest-le (first ∷ lists) results (Memᴰ.head e) = rw e (omega arith)
longest-le (first ∷ lists) results (Memᴰ.tail m) = omega (arith, longest-le lists results m)

-- However many sources there are, no address is given twice, and every lead's address is given.
pub interleave-Once :
    (lists : List (List Lead))
    → Once (interleave lists)
      × ((results : List Lead) (k : ℕ) (l : Lead)
          → Memᴰ results lists
          → nth k results ≡ some l
          → text_in (urls_of (interleave lists)) l.url ≡ true)
unfolding interleave
interleave-Once lists =
    let all_leads = columns (longest lists) 0 lists in
    (
      unseen-Once [] all_leads,
      λ results k l m e.
          let inside : k < 0 + longest lists =
            omega (arith, nth-lt k results l e, longest-le lists results m) in
          All-mem (IsShown [] (unseen [] all_leads)) l all_leads
            (columns-mem (longest lists) 0 k lists results l (omega arith) inside m e)
            (unseen-IsShown [] all_leads),
    )
