-- ===== src/Acquisition/Merging.antt =====
-- Leads, and merging them (`SearchResult` and `interleave` in
-- src/collegium/acquisition/__init__.py). A lead's provider and dates are left out.
use collegium.Prelude.{
  ℕ, zero, suc, Option, none, some, List, [], ◌∷◌, ◌++◌, if◌then◌else◌, map, length, max,
}
use collegium.Text.{Text, text_in}

-- `SearchResult`
pub record Lead : Type 0 where
  pub url : Text
  pub title : Text
  pub snippet : Text
  pub score : Option ℕ
  pub signals : List Text

abbrev pub urls_of : List Lead → List Text
urls_of results = map (λ (l : Lead). l.url) results

-- `for i in range(n): for results in lists: …`, of the columns from `i` on.
abbrev pub nth : ℕ → List Lead → Option Lead
nth i [] = none
nth zero (l ∷ results) = some l
nth (suc i) (l ∷ results) = nth i results

abbrev pub column : ℕ → List (List Lead) → List Lead
column i [] = []
column i (results ∷ lists) =
    let rest = column i lists in elim (nth i results) [ none ↦ rest | some l ↦ l ∷ rest ]

abbrev pub columns : ℕ → ℕ → List (List Lead) → List Lead
columns zero i lists = []
columns (suc n) i lists = column i lists ++ columns n (suc i) lists

abbrev pub longest : List (List Lead) → ℕ
longest [] = 0
longest (results ∷ lists) = max (length results) (longest lists)

abbrev pub unseen : List Text → List Lead → List Lead
unseen seen [] = []
unseen seen (l ∷ results) =
    let skipped = unseen seen results in
    let kept = unseen (l.url ∷ seen) results in if text_in seen l.url then skipped else l ∷ kept

unfoldable pub interleave : List (List Lead) → List Lead
interleave lists = unseen [] (columns (longest lists) 0 lists)
