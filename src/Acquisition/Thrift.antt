-- ===== src/Acquisition/Thrift.antt =====
-- What a run spends when it searches (`discover` in
-- src/collegium/acquisition/__init__.py).
use collegium.Prelude.{
  ℕ, ◌≡◌, Bool, true, false, not, ◌&&◌, Option, none, some, List, [], ◌∷◌, leb, Bool-cases, inl,
  inr, filter, map, take,
}
use collegium.Text.{Text}
use collegium.Acquisition.{
  Document, Acquisition, Run, Outcome, got, exhausted, raised, paid_first, max_paid_per_run,
  is_day_spent, after_call, extract,
}
use collegium.Acquisition.Keeping.{run_of}
use collegium.Acquisition.Budget.{IsThrifty, called-IsThrifty, extract-IsThrifty}
use collegium.Acquisition.Merging.{Lead, urls_of}
use collegium.Acquisition.Leads.{
  Answer, leads, blocked, broken, Provider, Web, Search, got_leads, no_budget, unavailable, broke,
  provider_of, reader_of, fallback_of, answered, call_search, enriched, enrich, cleaned,
  search_with, discover_from, second_opinion, or_fallback, after_search, Tried, tried, skipped,
  stopped, Sofar, going, ended, next_source, try_source, try_all, merged, discover, clean_lead,
  enrich_top, is_thin,
}

-- The run's state when a search ended, and in the middle of the loops.
abbrev pub after_of : Search → Run
after_of (got_leads results r) = r
after_of (no_budget r) = r
after_of (unavailable r) = r
after_of (broke r) = r

abbrev run_tried : Tried → Run
run_tried (tried results r) = r
run_tried (skipped r) = r
run_tried (stopped s) = after_of s

abbrev run_sofar : Sofar → Run
run_sofar (going per_source r) = r
run_sofar (ended s) = after_of s

answered-IsThrifty : (x : Answer) (r : Run) → IsThrifty r → IsThrifty (after_of (answered x r))
answered-IsThrifty (leads results) r h = h
answered-IsThrifty blocked r h = h
answered-IsThrifty broken r h = h

call_search-IsThrifty :
    (a : Acquisition) (free : paid_first a ≡ false) (metered : Bool) (x : Answer) (r : Run)
    → IsThrifty r
    → IsThrifty (after_of (call_search a metered x r))
unfolding call_search
call_search-IsThrifty a free metered x r h =
    elim (Bool-cases (metered && is_day_spent a.budget r.paid_calls)) [
      | inl e ↦ rw e h
      | inr e ↦
          elim (Bool-cases (metered && (not (paid_first a) && leb max_paid_per_run r.paid_calls))) [
            | inl f ↦ rw (e, f) h
            | inr f ↦
                rw (e, f)
                  (answered-IsThrifty x (after_call metered [] r)
                    (called-IsThrifty a free metered [] r f h))
          ]
    ]

module _ (sanitize : Text → Text × List Text) (clean : Text → Text) where
  enriched-IsThrifty :
      (paying : Bool) (results : List Lead) (o : Outcome (List Document))
      → IsThrifty (run_of o)
      → IsThrifty (after_of (enriched sanitize clean paying results o))
  enriched-IsThrifty paying results (got pages r) h = h
  enriched-IsThrifty true results (exhausted r) h = h
  enriched-IsThrifty false results (exhausted r) h = h
  enriched-IsThrifty paying results (raised r) h = h

  cleaned-IsThrifty :
      (a : Acquisition) (free : paid_first a ≡ false) (thin : Bool) (s : Search)
      → IsThrifty (after_of s)
      → IsThrifty (after_of (cleaned sanitize clean a thin s))
  unfolding enrich
  cleaned-IsThrifty a free true (got_leads results r) h =
      let shown = map (clean_lead sanitize clean) results in
      let urls = take enrich_top (urls_of (filter is_thin shown)) in
      enriched-IsThrifty (paid_first a) shown (extract sanitize a urls r)
        (extract-IsThrifty a free sanitize urls r h)
  cleaned-IsThrifty a free false (got_leads results r) h = h
  cleaned-IsThrifty a free thin (no_budget r) h = h
  cleaned-IsThrifty a free thin (unavailable r) h = h
  cleaned-IsThrifty a free thin (broke r) h = h

  search_with-IsThrifty :
      (a : Acquisition) (free : paid_first a ≡ false) (p : Option Provider) (query : Text)
      (max_results : ℕ) (recent_days : Option ℕ) (r : Run)
      → IsThrifty r
      → IsThrifty (after_of (search_with sanitize clean a p query max_results recent_days r))
  search_with-IsThrifty a free none query max_results recent_days r h = h
  search_with-IsThrifty a free (some p) query max_results recent_days r h =
      let x = p.answer query max_results recent_days in
      cleaned-IsThrifty a free p.thin_leads (call_search a p.metered x r)
        (call_search-IsThrifty a free p.metered x r h)

  second_opinion-IsThrifty :
      (paying : Bool) (s : Search)
      → IsThrifty (after_of s)
      → IsThrifty (run_tried (second_opinion sanitize clean paying s))
  second_opinion-IsThrifty paying (got_leads results r) h = h
  second_opinion-IsThrifty true (no_budget r) h = h
  second_opinion-IsThrifty false (no_budget r) h = h
  second_opinion-IsThrifty paying (unavailable r) h = h
  second_opinion-IsThrifty paying (broke r) h = h

  next_source-IsThrifty :
      (per_source : List (List Lead)) (t : Tried)
      → IsThrifty (run_tried t)
      → IsThrifty (run_sofar (next_source sanitize clean per_source t))
  next_source-IsThrifty per_source (tried results r) h = h
  next_source-IsThrifty per_source (skipped r) h = h
  next_source-IsThrifty per_source (stopped s) h = h

  merged-IsThrifty :
      (x : Sofar) → IsThrifty (run_sofar x) → IsThrifty (after_of (merged sanitize clean x))
  merged-IsThrifty (going per_source r) h = h
  merged-IsThrifty (ended s) h = h

  module _ (w : Web) (free : paid_first (reader_of w) ≡ false) where
    module _ (query : Text) (max_results : ℕ) (recent_days : Option ℕ) where
      discover_from-IsThrifty :
          (name : Text) (r : Run)
          → IsThrifty r
          → IsThrifty
              (after_of (discover_from sanitize clean w name query max_results recent_days r))
      discover_from-IsThrifty name r h =
          search_with-IsThrifty (reader_of w) free (provider_of name w.discovery) query max_results
            recent_days r h

      or_fallback-IsThrifty :
          (fallback : Option Text) (results : List Lead) (r : Run)
          → IsThrifty r
          → IsThrifty (
              run_tried
                (or_fallback sanitize clean w fallback query max_results recent_days results r))
      or_fallback-IsThrifty none results r h = h
      or_fallback-IsThrifty (some name) (l ∷ results) r h = h
      or_fallback-IsThrifty (some name) [] r h =
          second_opinion-IsThrifty (paid_first (reader_of w))
            (discover_from sanitize clean w name query max_results recent_days r)
            (discover_from-IsThrifty name r h)

      after_search-IsThrifty :
          (fallback : Option Text) (alone : Bool) (s : Search)
          → IsThrifty (after_of s)
          → IsThrifty (
              run_tried
                (after_search sanitize clean w fallback alone query max_results recent_days s))
      after_search-IsThrifty fallback alone (got_leads results r) h =
          or_fallback-IsThrifty fallback results r h
      after_search-IsThrifty fallback true (no_budget r) h = h
      after_search-IsThrifty fallback false (no_budget r) h = h
      after_search-IsThrifty fallback true (unavailable r) h = h
      after_search-IsThrifty fallback false (unavailable r) h = h
      after_search-IsThrifty none alone (broke r) h = h
      after_search-IsThrifty (some name) alone (broke r) h =
          or_fallback-IsThrifty (some name) [] r h

      try_source-IsThrifty :
          (fallback : Option Text) (alone : Bool) (name : Text) (x : Sofar)
          → IsThrifty (run_sofar x)
          → IsThrifty (
              run_sofar
                (try_source sanitize clean w fallback alone query max_results recent_days name x))
      try_source-IsThrifty fallback alone name (ended s) h = h
      try_source-IsThrifty fallback alone name (going per_source r) h =
          let s = discover_from sanitize clean w name query max_results recent_days r in
          next_source-IsThrifty per_source
            (after_search sanitize clean w fallback alone query max_results recent_days s)
            (after_search-IsThrifty fallback alone s (discover_from-IsThrifty name r h))

      try_all-IsThrifty :
          (fallback : Option Text) (alone : Bool) (names : List Text) (x : Sofar)
          → IsThrifty (run_sofar x)
          → IsThrifty (
              run_sofar
                (try_all sanitize clean w fallback alone query max_results recent_days names x))
      try_all-IsThrifty fallback alone [] x h = h
      try_all-IsThrifty fallback alone (name ∷ names) x h =
          try_all-IsThrifty fallback alone names
            (try_source sanitize clean w fallback alone query max_results recent_days name x)
            (try_source-IsThrifty fallback alone name x h)

      pub discover-IsThrifty :
          (names : List Text) (r : Run)
          → IsThrifty r
          → IsThrifty (after_of (discover sanitize clean w query max_results recent_days names r))
      unfolding discover
      discover-IsThrifty [] r h =
          merged-IsThrifty
            (try_all sanitize clean w (fallback_of w) true query max_results recent_days
              (w.default ∷ []) (going [] r))
            (try_all-IsThrifty (fallback_of w) true (w.default ∷ []) (going [] r) h)
      discover-IsThrifty (name ∷ []) r h =
          merged-IsThrifty
            (try_all sanitize clean w none true query max_results recent_days (name ∷ [])
              (going [] r))
            (try_all-IsThrifty none true (name ∷ []) (going [] r) h)
      discover-IsThrifty (name ∷ other ∷ names) r h =
          merged-IsThrifty
            (try_all sanitize clean w none false query max_results recent_days
              (name ∷ other ∷ names) (going [] r))
            (try_all-IsThrifty none false (name ∷ other ∷ names) (going [] r) h)
