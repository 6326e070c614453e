-- ===== src/Acquisition/Gathered.antt =====
-- What is gathered is bounded, and none of it blocked (`gather` and `discover` in
-- src/collegium/acquisition/__init__.py).
use collegium.Prelude.{
  ℕ, zero, suc, ◌≤◌, ◌≡◌, refl, sym, ap, subst, Bool, true, false, not, Option, none, some, List,
  [], ◌∷◌, All, All-filter, Bool-cases, inl, inr, map, take, sort, insert_sorted, length,
  length-take-le, ltb,
}
use collegium.Text.{Text, text_eq}
use collegium.Reliability.{is_blocked}
use collegium.Acquisition.{paid_first, Document, Run, Outcome, got, exhausted, raised, extract}
use collegium.Acquisition.Merging.{Lead, urls_of, interleave}
use collegium.Acquisition.Leads.{
  Web, Search, got_leads, no_budget, unavailable, broke, reader_of, document_of, Sofar, going,
  ended, merged, discover, fallback_of, next_source, after_search, discover_from, second_opinion,
  or_fallback,
}
use collegium.Acquisition.Searching.{GoesOn, Passes, next_source-GoesOn}
use collegium.Acquisition.Gathering.{
  score_of, keep_best, keep_all, Gathering, gathering, gave_up, Gathered, gathered, failed,
  with_results, chosen, content_of, gather_one, gather_more, document_for, documents_for,
  read_chosen, gather,
}

-- The lead's site is not blocked.
abbrev pub IsOpen : Lead → Type 0
IsOpen l = not (is_blocked l.url) ≡ true

-- At most so many documents of at most so many characters, none from a blocked site.
pub record IsWithin (max_documents max_chars : ℕ) (documents : List Document) : Type 0 where
  pub few : length documents ≤ max_documents
  pub short : All (λ (d : Document). length d.content ≤ max_chars) documents
  pub open_sites : All (λ (d : Document). not (is_blocked d.url) ≡ true) documents

keep_best-IsOpen :
    (l : Lead) (best : List Lead) → IsOpen l → All IsOpen best → All IsOpen (keep_best l best)
keep_best-IsOpen l [] o h = (o, tt)
keep_best-IsOpen l (b ∷ best) o h = elim (Bool-cases (text_eq b.url l.url)) [
  | inl e ↦ elim (Bool-cases (ltb (score_of b) (score_of l))) [
    | inl f ↦ rw (e, f) (o, h.1)
    | inr f ↦ rw (e, f) h
  ]
  | inr e ↦ rw e (h.0, keep_best-IsOpen l best o h.1)
]

keep_all-IsOpen :
    (results best : List Lead)
    → All IsOpen results
    → All IsOpen best
    → All IsOpen (keep_all results best)
keep_all-IsOpen [] best h k = k
keep_all-IsOpen (l ∷ results) best h k =
    keep_all-IsOpen results (keep_best l best) h.1 (keep_best-IsOpen l best h.0 k)

All-take {ℓ κ} : {A : Type ℓ} (P : A → Type κ) (n : ℕ) (xs : List A) → All P xs → All P (take n xs)
All-take P zero xs h = tt
All-take P (suc n) [] h = tt
All-take P (suc n) (x ∷ xs) h = (h.0, All-take P n xs h.1)

length-map {ℓ κ} :
    {A : Type ℓ} {B : Type κ} (f : A → B) (xs : List A) → length (map f xs) ≡ length xs
length-map f [] = refl
length-map f (x ∷ xs) = ap suc (length-map f xs)

map-All {ℓ κ μ ν} :
    {A : Type ℓ} {B : Type κ} (P : A → Type μ) (Q : B → Type ν) (f : A → B) (xs : List A)
    → ((a : A) → P a → Q (f a))
    → All P xs
    → All Q (map f xs)
map-All P Q f [] step h = tt
map-All P Q f (x ∷ xs) step h = (step x h.0, map-All P Q f xs step h.1)

All-insert {ℓ κ} :
    {A : Type ℓ} (P : A → Type κ) (before : A → A → Bool) (x : A) (xs : List A)
    → P x
    → All P xs
    → All P (insert_sorted before x xs)
All-insert P before x [] p h = (p, tt)
All-insert P before x (y ∷ ys) p h = elim (Bool-cases (before y x)) [
  | inl e ↦ rw e (h.0, All-insert P before x ys p h.1)
  | inr e ↦ rw e (p, h)
]

All-sort {ℓ κ} :
    {A : Type ℓ} (P : A → Type κ) (before : A → A → Bool) (xs : List A)
    → All P xs
    → All P (sort before xs)
unfolding sort
All-sort P before [] h = tt
All-sort P before (x ∷ xs) h = All-insert P before x (sort before xs) h.0 (All-sort P before xs h.1)

-- Leads that a search gave.
abbrev AreOpen : Search → Type 0
AreOpen (got_leads results r) = All IsOpen results
AreOpen (no_budget r) = Unit
AreOpen (unavailable r) = Unit
AreOpen (broke r) = Unit

abbrev GatheredOpen : Gathering → Type 0
GatheredOpen (gathering best r) = All IsOpen best
GatheredOpen (gave_up s) = Unit

with_results-IsOpen :
    (best : List Lead) (s : Search)
    → AreOpen s
    → All IsOpen best
    → GatheredOpen (with_results best s)
with_results-IsOpen best (got_leads results r) h k = keep_all-IsOpen results best h k
with_results-IsOpen best (no_budget r) h k = tt
with_results-IsOpen best (unavailable r) h k = tt
with_results-IsOpen best (broke r) h k = tt

-- A loop that was ended gave no leads.
abbrev gave_leads : Search → Bool
gave_leads (got_leads results r) = true
gave_leads _ = false

AreOpen-none : (s : Search) → gave_leads s ≡ false → AreOpen s
AreOpen-none (got_leads results r) h = absurd (cc h)
AreOpen-none (no_budget r) h = tt
AreOpen-none (unavailable r) h = tt
AreOpen-none (broke r) h = tt

module _ (sanitize : Text → Text × List Text) (clean : Text → Text) where
  merged-AreOpen : (x : Sofar) → GoesOn gave_leads x → AreOpen (merged sanitize clean x)
  merged-AreOpen (going per_source r) h =
      All-filter (λ (l : Lead). not (is_blocked l.url)) (interleave per_source)
  merged-AreOpen (ended s) h = AreOpen-none s h

  second_opinion-ends :
      (paying : Bool) (s : Search) → Passes gave_leads (second_opinion sanitize clean paying s)
  second_opinion-ends paying (got_leads results r) = tt
  second_opinion-ends true (no_budget r) = refl
  second_opinion-ends false (no_budget r) = tt
  second_opinion-ends paying (unavailable r) = refl
  second_opinion-ends paying (broke r) = refl

  module _ (w : Web) (query : Text) (max_results : ℕ) (recent_days : Option ℕ) where
    or_fallback-ends :
        (fallback : Option Text) (results : List Lead) (r : Run)
        → Passes gave_leads
            (or_fallback sanitize clean w fallback query max_results recent_days results r)
    or_fallback-ends none results r = tt
    or_fallback-ends (some name) (l ∷ results) r = tt
    or_fallback-ends (some name) [] r =
        second_opinion-ends (paid_first (reader_of w))
          (discover_from sanitize clean w name query max_results recent_days r)

    after_search-ends :
        (fallback : Option Text) (alone : Bool) (s : Search)
        → Passes gave_leads
            (after_search sanitize clean w fallback alone query max_results recent_days s)
    after_search-ends fallback alone (got_leads results r) = or_fallback-ends fallback results r
    after_search-ends fallback true (no_budget r) = refl
    after_search-ends fallback false (no_budget r) = tt
    after_search-ends fallback true (unavailable r) = refl
    after_search-ends fallback false (unavailable r) = tt
    after_search-ends none alone (broke r) = refl
    after_search-ends (some name) alone (broke r) = or_fallback-ends (some name) [] r

    discover-AreOpen :
        (r : Run) → AreOpen (discover sanitize clean w query max_results recent_days [] r)
    unfolding discover
    discover-AreOpen r =
        let s = discover_from sanitize clean w w.default query max_results recent_days r in
        let t =
          after_search sanitize clean w (fallback_of w) true query max_results recent_days s in
        merged-AreOpen (next_source sanitize clean [] t) (
          next_source-GoesOn gave_leads sanitize clean [] t
            (after_search-ends (fallback_of w) true s))

  gather_one-GatheredOpen :
      (w : Web) (max_results : ℕ) (query : Text) (x : Gathering)
      → GatheredOpen x
      → GatheredOpen (gather_one sanitize clean w max_results query x)
  gather_one-GatheredOpen w max_results query (gave_up s) h = tt
  gather_one-GatheredOpen w max_results query (gathering best r) h =
      with_results-IsOpen best (discover sanitize clean w query max_results none [] r)
        (discover-AreOpen w query max_results none r) h

  gather_more-GatheredOpen :
      (w : Web) (max_results : ℕ) (queries : List Text) (x : Gathering)
      → GatheredOpen x
      → GatheredOpen (gather_more sanitize clean w max_results queries x)
  gather_more-GatheredOpen w max_results [] x h = h
  gather_more-GatheredOpen w max_results (query ∷ queries) x h =
      gather_more-GatheredOpen w max_results queries
        (gather_one sanitize clean w max_results query x)
        (gather_one-GatheredOpen w max_results query x h)

  -- What was gathered, if anything was.
  abbrev Within : ℕ → ℕ → Gathered → Type 0
  Within max_documents max_chars (gathered documents r) = IsWithin max_documents max_chars documents
  Within max_documents max_chars (failed s) = Unit

  documents_for-Within :
      (max_documents max_chars : ℕ) (picked : List Lead) (o : Outcome (List Document))
      → length picked ≤ max_documents
      → All IsOpen picked
      → Within max_documents max_chars (documents_for sanitize clean max_chars picked o)
  documents_for-Within max_documents max_chars picked (exhausted r) few h = tt
  documents_for-Within max_documents max_chars picked (raised r) few h = tt
  documents_for-Within max_documents max_chars picked (got extracted r) few h = record {
    few =
        subst (λ n. n ≤ max_documents)
          (sym (length-map (document_for sanitize clean max_chars extracted) picked)) few;
    short =
        map-All IsOpen (λ (d : Document). length d.content ≤ max_chars)
          (document_for sanitize clean max_chars extracted) picked
          (λ l o. length-take-le max_chars (clean (content_of (document_of l.url extracted) l))) h;
    open_sites =
        map-All IsOpen (λ (d : Document). not (is_blocked d.url) ≡ true)
          (document_for sanitize clean max_chars extracted) picked (λ l o. o) h;
  }

  read_chosen-Within :
      (w : Web) (max_documents max_chars : ℕ) (x : Gathering)
      → GatheredOpen x
      → Within max_documents max_chars (read_chosen sanitize clean w max_documents max_chars x)
  read_chosen-Within w max_documents max_chars (gave_up s) h = tt
  read_chosen-Within w max_documents max_chars (gathering best r) h =
      let ranked = sort (λ a b. ltb (score_of b) (score_of a)) best in
      let picked = chosen max_documents best in
      documents_for-Within max_documents max_chars picked
        (extract sanitize (reader_of w) (urls_of picked) r) (length-take-le max_documents ranked)
        (All-take IsOpen max_documents ranked
          (All-sort IsOpen (λ a b. ltb (score_of b) (score_of a)) best h))

-- What is gathered is at most so many documents, of at most so many characters each, and none of
-- them from a blocked site.
pub gather-IsWithin :
    (sanitize : Text → Text × List Text) (clean : Text → Text) (w : Web) (queries : List Text)
    (max_results max_documents max_chars : ℕ) (r r' : Run) (documents : List Document)
    → gather sanitize clean w queries max_results max_documents max_chars r ≡ gathered documents r'
    → IsWithin max_documents max_chars documents
unfolding gather
gather-IsWithin sanitize clean w queries max_results max_documents max_chars r r' documents e =
    subst (Within sanitize clean max_documents max_chars) e (
      read_chosen-Within sanitize clean w max_documents max_chars
        (gather_more sanitize clean w max_results queries (gathering [] r))
        (gather_more-GatheredOpen sanitize clean w max_results queries (gathering [] r) tt))
