-- ===== src/Acquisition/Searching.antt =====
-- How a search ends, and what it gives (`discover` in src/collegium/acquisition/__init__.py).
use collegium.Prelude.{
  ℕ, ◌≡◌, refl, Bool, true, false, not, Option, none, some, List, [], ◌∷◌, filter, map, arith, take,
}
use collegium.Text.{Text}
use collegium.Reliability.{is_blocked}
use collegium.Acquisition.{
  Document, Acquisition, Run, Outcome, got, exhausted, raised, paid_first, extract,
}
use collegium.Acquisition.Merging.{Lead, interleave, urls_of}
use collegium.Acquisition.Leads.{
  Answer, leads, blocked, broken, Provider, Web, Search, got_leads, no_budget, unavailable, broke,
  provider_of, is_metered, reader_of, fallback_of, call_search, enriched, enrich, cleaned,
  search_with, discover_from, second_opinion, or_fallback, after_search, Tried, tried, skipped,
  stopped, Sofar, going, ended, next_source, merged, discover, clean_lead, enrich_top, is_thin,
}

-- Ended by a spent budget.
abbrev pub is_short : Search → Bool
is_short (no_budget r) = true
is_short _ = false

-- The loop has not been ended by what the test asks for.
abbrev pub GoesOn : (Search → Bool) → Sofar → Type 0
GoesOn ends (going per_source r) = Unit
GoesOn ends (ended s) = ends s ≡ false

abbrev pub Passes : (Search → Bool) → Tried → Type 0
Passes ends (tried results r) = Unit
Passes ends (skipped r) = Unit
Passes ends (stopped s) = ends s ≡ false

pub next_source-GoesOn :
    (ends : Search → Bool) (sanitize : Text → Text × List Text) (clean : Text → Text)
    (per_source : List (List Lead)) (t : Tried)
    → Passes ends t
    → GoesOn ends (next_source sanitize clean per_source t)
next_source-GoesOn ends sanitize clean per_source (tried results r) h = tt
next_source-GoesOn ends sanitize clean per_source (skipped r) h = tt
next_source-GoesOn ends sanitize clean per_source (stopped s) h = h

merged-ends :
    (ends : Search → Bool) (sanitize : Text → Text × List Text) (clean : Text → Text) (x : Sofar)
    → ((results : List Lead) (r : Run) → ends (got_leads results r) ≡ false)
    → GoesOn ends x
    → ends (merged sanitize clean x) ≡ false
merged-ends ends sanitize clean (going per_source r) found h =
    found (filter (λ l. not (is_blocked l.url)) (interleave per_source)) r
merged-ends ends sanitize clean (ended s) found h = h

-- What does not cost money is never refused.
call_search-free :
    (a : Acquisition) (answer : Answer) (r : Run) → is_short (call_search a false answer r) ≡ false
unfolding call_search
call_search-free a (leads results) r = refl
call_search-free a blocked r = refl
call_search-free a broken r = refl

module _ (sanitize : Text → Text × List Text) (clean : Text → Text) where
  enriched-free :
      (results : List Lead) (o : Outcome (List Document))
      → is_short (enriched sanitize clean false results o) ≡ false
  enriched-free results (got pages r) = refl
  enriched-free results (exhausted r) = refl
  enriched-free results (raised r) = refl

  cleaned-free :
      (a : Acquisition) (thin : Bool) (s : Search)
      → paid_first a ≡ false
      → is_short s ≡ false
      → is_short (cleaned sanitize clean a thin s) ≡ false
  unfolding enrich
  cleaned-free a true (got_leads results r) free h =
      let o =
        extract sanitize a
          (take enrich_top (urls_of (filter is_thin (map (clean_lead sanitize clean) results))))
          r in
      rw free (enriched-free (map (clean_lead sanitize clean) results) o)
  cleaned-free a false (got_leads results r) free h = refl
  cleaned-free a thin (no_budget r) free h = h
  cleaned-free a thin (unavailable r) free h = refl
  cleaned-free a thin (broke r) free h = refl

  search_with-free :
      (a : Acquisition) (p : Option Provider) (query : Text) (max_results : ℕ)
      (recent_days : Option ℕ) (r : Run)
      → paid_first a ≡ false
      → is_metered p ≡ false
      → is_short (search_with sanitize clean a p query max_results recent_days r) ≡ false
  search_with-free a none query max_results recent_days r free unpaid = refl
  search_with-free a (some p) query max_results recent_days r free unpaid =
      let answer = p.answer query max_results recent_days in
      cleaned-free a p.thin_leads (call_search a p.metered answer r) free
        (rw unpaid (call_search-free a answer r))

  second_opinion-Passes : (s : Search) → Passes is_short (second_opinion sanitize clean false s)
  second_opinion-Passes (got_leads results r) = tt
  second_opinion-Passes (no_budget r) = tt
  second_opinion-Passes (unavailable r) = refl
  second_opinion-Passes (broke r) = refl

  module _ (w : Web) (query : Text) (max_results : ℕ) (recent_days : Option ℕ)
      (free : paid_first (reader_of w) ≡ false) where
    or_fallback-Passes :
        (fallback : Option Text) (results : List Lead) (r : Run)
        → Passes is_short
            (or_fallback sanitize clean w fallback query max_results recent_days results r)
    or_fallback-Passes none results r = tt
    or_fallback-Passes (some name) (l ∷ results) r = tt
    or_fallback-Passes (some name) [] r = rw free (
        second_opinion-Passes (discover_from sanitize clean w name query max_results recent_days r))

    after_default-Passes :
        (fallback : Option Text) (s : Search)
        → is_short s ≡ false
        → Passes is_short
            (after_search sanitize clean w fallback true query max_results recent_days s)
    after_default-Passes fallback (got_leads results r) h = or_fallback-Passes fallback results r
    after_default-Passes fallback (no_budget r) h = h
    after_default-Passes fallback (unavailable r) h = refl
    after_default-Passes none (broke r) h = refl
    after_default-Passes (some name) (broke r) h = or_fallback-Passes (some name) [] r

    -- Where the default search and the first extractor are free, a search of the default source
    -- never ends by a spent budget, whatever its fallback costs.
    pub discover-default :
        (r : Run) → is_short (discover sanitize clean w query max_results recent_days [] r) ≡ false
    unfolding discover
    discover-default r =
        let p = provider_of w.default w.discovery in
        let s = discover_from sanitize clean w w.default query max_results recent_days r in
        let unpaid : is_metered p ≡ false = ground (arith, free) in
        let t =
          after_search sanitize clean w (fallback_of w) true query max_results recent_days s in
        merged-ends is_short sanitize clean (next_source sanitize clean [] t) (λ results r'. refl)
          (next_source-GoesOn is_short sanitize clean [] t (
            after_default-Passes (fallback_of w) s
              (search_with-free (reader_of w) p query max_results recent_days r free unpaid)))
