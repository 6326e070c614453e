-- ===== src/Acquisition/Once.antt =====
-- A page is read once in a run (`extract` in src/collegium/acquisition/__init__.py).
use collegium.Prelude.{
  ◌≡◌, refl, sym, ap, ◌∙◌, subst, Bool, true, false, not, ◌&&◌, leb, Option, none, some, List, [],
  ◌∷◌, filter, arith, Bool-cases, inl, inr, All, if◌then◌else◌,
}
use collegium.Text.{Text, text_eq, text_eq_iff}
use collegium.Acquisition.{
  Document, Acquisition, Run, Outcome, got, exhausted, raised, has_page, has_text, set_defaults,
  keep, clean_document, collect, readable, read_new, save, and_fallback, extract_with, answer_with,
  extract, after_call, paid_first, max_paid_per_run,
}
use collegium.Acquisition.Keeping.{run_of, and_fallback-keeps, extract_with-keeps}

-- Every address with a page in `p` has one in `q`.
abbrev Extends : List (Text × Option Document) → List (Text × Option Document) → Type 0
Extends p q = (v : Text) → has_page p v ≡ true → has_page q v ≡ true

set_defaults-Extends :
    (urls : List Text) (p : List (Text × Option Document)) → Extends p (set_defaults urls p)
set_defaults-Extends [] p v h = h
set_defaults-Extends (u ∷ urls) p v h = elim (Bool-cases (has_page p u)) [
  | inl there ↦ rw there (set_defaults-Extends urls p v h)
  | inr new ↦ rw new (set_defaults-Extends urls ((u, none) ∷ p) v (ground (arith, h)))
]

keep-Extends :
    (sanitize : Text → Text × List Text) (documents : List Document)
    (p : List (Text × Option Document))
    → Extends p (keep sanitize documents p)
keep-Extends sanitize [] p v h = h
keep-Extends sanitize (d ∷ documents) p v h = elim (Bool-cases (has_text d)) [
  | inl e ↦ rw e (
      keep-Extends sanitize documents ((d.url, some (clean_document sanitize d)) ∷ p) v
        (ground (arith, h)))
  | inr e ↦ rw e (keep-Extends sanitize documents p v h)
]

text_eq_refl : (u : Text) → text_eq u u ≡ true
text_eq_refl u = (text_eq_iff u u).1 refl

-- An address that has its default has a page.
set_defaults-All :
    (urls : List Text) (p : List (Text × Option Document))
    → All (λ u. has_page (set_defaults urls p) u ≡ true) urls
set_defaults-All [] p = tt
set_defaults-All (u ∷ urls) p =
    let q = if has_page p u then p else (u, none) ∷ p in
    (set_defaults-Extends urls q u (ground (arith, text_eq_refl u)), set_defaults-All urls q)

All-unfilter :
    (P : Text → Type 0) (test : Text → Bool) (urls : List Text)
    → ((u : Text) → test u ≡ false → P u)
    → All P (filter test urls)
    → All P urls
All-unfilter P test [] others h = tt
All-unfilter P test (u ∷ urls) others h = elim (Bool-cases (test u)) [
  | inl e ↦ let k = rw e at h in (k.0, All-unfilter P test urls others k.1)
  | inr e ↦ (others u e, All-unfilter P test urls others (rw e at h))
]

nothing_left :
    (urls : List Text) (p : List (Text × Option Document))
    → All (λ u. has_page p u ≡ true) urls
    → filter (λ v. not (has_page p v)) urls ≡ []
nothing_left [] p h = refl
nothing_left (u ∷ urls) p h = rw h.0 (nothing_left urls p h.1)

-- What a run that reads `todo` leaves in its pages.
record Covers (todo : List Text) (old new : List (Text × Option Document)) : Type 0 where
  extended : Extends old new
  covered : All (λ u. has_page new u ≡ true) todo

abbrev HasPages : Run → Run → Type 0
HasPages r s = s.pages ≡ r.pages

module _ (sanitize : Text → Text × List Text) (a : Acquisition) where
  call-pages :
      (r : Run) (metered : Bool) (urls : List Text) (s : Run)
      → (metered && (not (paid_first a) && leb max_paid_per_run s.paid_calls)) ≡ false
      → HasPages r s
      → HasPages r (after_call metered urls s)
  call-pages r metered urls s allowed h = h

  abbrev SavedFrom : List Text → Run → Outcome Unit → Type 0
  SavedFrom todo r (got done r') = Covers todo r.pages r'.pages
  SavedFrom todo r (exhausted r') = Unit
  SavedFrom todo r (raised r') = Unit

  save-Covers :
      (todo : List Text) (r : Run) (o : Outcome (List Document))
      → (run_of o).pages ≡ r.pages
      → SavedFrom todo r (save sanitize todo o)
  save-Covers todo r (got documents r') same = record {
    extended = λ v h.
        set_defaults-Extends todo (keep sanitize documents r'.pages) v
          (keep-Extends sanitize documents r'.pages v (rw same h));
    covered = set_defaults-All todo (keep sanitize documents r'.pages);
  }
  save-Covers todo r (exhausted r') same = tt
  save-Covers todo r (raised r') same = tt

  read_new-Covers : (todo : List Text) (r : Run) → SavedFrom todo r (read_new sanitize a todo r)
  read_new-Covers [] r = record { extended = λ v h. h; covered = tt }
  read_new-Covers (u ∷ todo) r =
      let first = extract_with a a.extractor (u ∷ todo) r in
      save-Covers (u ∷ todo) r (and_fallback a (u ∷ todo) first) (
        and_fallback-keeps a (HasPages r) (call-pages r) (u ∷ todo) first
          (extract_with-keeps a (HasPages r) (call-pages r) a.extractor (u ∷ todo) r refl))

  -- The answer is what the pages hold, and every wanted address has a page.
  abbrev Settled : List Text → Outcome (List Document) → Type 0
  Settled urls (got documents r') =
      (documents ≡ collect urls r'.pages) × All (λ u. has_page r'.pages u ≡ true) urls
  Settled urls (exhausted r') = Unit
  Settled urls (raised r') = Unit

  answer_with-Settled :
      (urls : List Text) (r : Run) (o : Outcome Unit)
      → SavedFrom (filter (λ u. not (has_page r.pages u)) urls) r o
      → Settled urls (answer_with sanitize urls o)
  answer_with-Settled urls r (got done r') c = (
    refl,
    All-unfilter (λ u. has_page r'.pages u ≡ true) (λ u. not (has_page r.pages u)) urls
        (λ u e. c.extended u (ground (arith, e))) c.covered,
  )
  answer_with-Settled urls r (exhausted r') c = tt
  answer_with-Settled urls r (raised r') c = tt

  extract-Settled :
      (urls : List Text) (r : Run) → Settled (readable urls) (extract sanitize a urls r)
  unfolding extract
  extract-Settled urls r =
      let todo = filter (λ u. not (has_page r.pages u)) (readable urls) in
      answer_with-Settled (readable urls) r (read_new sanitize a todo r) (read_new-Covers todo r)

  settled_again :
      (urls : List Text) (r : Run)
      → All (λ u. has_page r.pages u ≡ true) (readable urls)
      → extract sanitize a urls r ≡ got (collect (readable urls) r.pages) r
  unfolding extract
  settled_again urls r h = rw (nothing_left (readable urls) r.pages h) refl

-- A run that has read some addresses gives the same documents when it is asked for them again, and
-- makes no call: its state stays as it is.
pub extract-again :
    (sanitize : Text → Text × List Text) (a : Acquisition) (urls : List Text) (r r' : Run)
    (documents : List Document)
    → extract sanitize a urls r ≡ got documents r'
    → extract sanitize a urls r' ≡ got documents r'
extract-again sanitize a urls r r' documents e =
    let s = subst (Settled sanitize a (readable urls)) e (extract-Settled sanitize a urls r) in
    settled_again sanitize a urls r' s.1 ∙ ap (λ d. got d r') (sym s.0)
