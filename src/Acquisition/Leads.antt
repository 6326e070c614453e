-- ===== src/Acquisition/Leads.antt =====
-- Discovering and gathering (src/collegium/acquisition/__init__.py: `discover`, `_discover_from`,
-- `_enrich`, `interleave` and `gather`). The search providers, `sanitize` and `clean_text` are taken
-- as they come. Scores are numbers of some unit; a lead's provider and dates are left out.
use collegium.Acquisition.Merging.{Lead, urls_of, interleave}
use collegium.Prelude.{
  ℕ, Bool, true, false, not, ◌&&◌, Option, none, some, List, [], ◌∷◌, ◌++◌, leb, ltb, if◌then◌else◌,
  filter, map, take, length, find,
}
use collegium.Text.{Text, text_eq}
use collegium.Reliability.{is_blocked}
use collegium.Acquisition.{
  Document, Acquisition, Run, Outcome, got, exhausted, raised, paid_first, max_paid_per_run,
  is_day_spent, after_call, extract, with_signals,
}

abbrev pub thin_snippet_chars : ℕ
thin_snippet_chars = 200

abbrev pub enrich_top : ℕ
enrich_top = 3

abbrev pub enriched_snippet_chars : ℕ
enriched_snippet_chars = 600

-- What a provider answers: leads, SearchUnavailable, or another exception.
pub data Answer : Type 0 where
  leads : List Lead → Answer
  blocked broken : Answer

-- What it answers to a query, of so many results, of so many days back.
pub record Provider : Type 0 where
  pub metered : Bool
  pub thin_leads : Bool
  pub answer : Text → ℕ → Option ℕ → Answer

pub record Web : Type 0 where
  pub reader : Acquisition
  pub discovery : List (Text × Provider)
  pub default : Text
  pub fallback_search : Option Text

-- Leads, BudgetExhausted, SearchUnavailable, or another exception.
pub data Search : Type 0 where
  got_leads : List Lead → Run → Search
  no_budget unavailable broke : Run → Search

abbrev pub provider_of : Text → List (Text × Provider) → Option Provider
provider_of name [] = none
provider_of name ((known, p) ∷ discovery) =
    let later = provider_of name discovery in if text_eq known name then some p else later

abbrev pub is_metered : Option Provider → Bool
is_metered none = false
is_metered (some p) = p.metered

-- The reading side, which knows whether the default search costs money.
abbrev pub reader_of : Web → Acquisition
reader_of w = record w.reader { metered_default = is_metered (provider_of w.default w.discovery) }

-- `fallback_search if fallback_search != default else None`
abbrev pub fallback_of : Web → Option Text
fallback_of w = elim w.fallback_search [
  | none ↦ none
  | some name ↦ (if text_eq name w.default then none else some name)
]

abbrev pub answered : Answer → Run → Search
answered (leads results) r = got_leads results r
answered blocked r = unavailable r
answered broken r = broke r

-- `_call`, of a search; it asks for no addresses.
unfoldable pub call_search : Acquisition → Bool → Answer → Run → Search
call_search a metered answer r =
    if metered && is_day_spent a.budget r.paid_calls
    then no_budget r
    else if metered && (not (paid_first a) && leb max_paid_per_run r.paid_calls)
    then no_budget r
    else answered answer (after_call metered [] r)

abbrev pub is_thin : Lead → Bool
is_thin l = ltb (length l.snippet) thin_snippet_chars

abbrev pub document_of : Text → List Document → Option Document
document_of url documents = find (λ d. text_eq d.url url) documents

-- What the loop over the sources does with one.
pub data Tried : Type 0 where
  tried : List Lead → Run → Tried
  skipped : Run → Tried
  stopped : Search → Tried

-- The leads of the sources so far, or how the loop ended.
pub data Sofar : Type 0 where
  going : List (List Lead) → Run → Sofar
  ended : Search → Sofar

module _ (sanitize : Text → Text × List Text) (clean_text : Text → Text) where
  -- `_clean_lead`
  abbrev pub clean_lead : Lead → Lead
  clean_lead l = record l {
    title = (sanitize l.title).0;
    snippet = (sanitize l.snippet).0;
    signals = with_signals l.signals ((sanitize l.title).1 ++ (sanitize l.snippet).1);
  }

  abbrev pub with_opening : Text → Document → Lead → Lead
  with_opening [] page l = l
  with_opening (c ∷ text) page l = record l {
    snippet = (c ∷ text) ++ 10 ∷ l.snippet;
    signals = with_signals l.signals page.signals;
  }

  abbrev pub enrich_one : List Document → Lead → Lead
  enrich_one pages l = elim (document_of l.url pages) [
    | none ↦ l
    | some page ↦ with_opening (take enriched_snippet_chars (clean_text page.content)) page l
  ]

  abbrev pub enriched : Bool → List Lead → Outcome (List Document) → Search
  enriched paying results (got pages r) = got_leads (map (enrich_one pages) results) r
  enriched true results (exhausted r) = no_budget r
  enriched false results (exhausted r) = got_leads results r
  enriched paying results (raised r) = got_leads results r

  -- `_enrich`
  unfoldable pub enrich : Acquisition → List Lead → Run → Search
  enrich a results r =
      let thin = take enrich_top (urls_of (filter is_thin results)) in
      enriched (paid_first a) results (extract sanitize a thin r)

  abbrev pub cleaned : Acquisition → Bool → Search → Search
  cleaned a true (got_leads results r) = enrich a (map clean_lead results) r
  cleaned a false (got_leads results r) = got_leads (map clean_lead results) r
  cleaned a thin (no_budget r) = no_budget r
  cleaned a thin (unavailable r) = unavailable r
  cleaned a thin (broke r) = broke r

  abbrev pub search_with : Acquisition → Option Provider → Text → ℕ → Option ℕ → Run → Search
  search_with a none query max_results recent_days r = broke r
  search_with a (some p) query max_results recent_days r =
      cleaned a p.thin_leads (call_search a p.metered (p.answer query max_results recent_days) r)

  -- `_discover_from`
  abbrev pub discover_from : Web → Text → Text → ℕ → Option ℕ → Run → Search
  discover_from w name query max_results recent_days r =
      search_with (reader_of w) (provider_of name w.discovery) query max_results recent_days r

  -- The second opinion, which a spent budget only ends when the main route is paid.
  abbrev pub second_opinion : Bool → Search → Tried
  second_opinion paying (got_leads results r) = tried results r
  second_opinion true (no_budget r) = stopped (no_budget r)
  second_opinion false (no_budget r) = tried [] r
  second_opinion paying (unavailable r) = stopped (unavailable r)
  second_opinion paying (broke r) = stopped (broke r)

  abbrev pub or_fallback : Web → Option Text → Text → ℕ → Option ℕ → List Lead → Run → Tried
  or_fallback w none query max_results recent_days results r = tried results r
  or_fallback w (some name) query max_results recent_days (l ∷ results) r = tried (l ∷ results) r
  or_fallback w (some name) query max_results recent_days [] r =
      second_opinion (paid_first (reader_of w))
        (discover_from w name query max_results recent_days r)

  -- `fallback` is none when sources were named.
  abbrev pub after_search : Web → Option Text → Bool → Text → ℕ → Option ℕ → Search → Tried
  after_search w fallback alone query max_results recent_days (got_leads results r) =
      or_fallback w fallback query max_results recent_days results r
  after_search w fallback alone query max_results recent_days (no_budget r) =
      if alone then stopped (no_budget r) else skipped r
  after_search w fallback alone query max_results recent_days (unavailable r) =
      if alone then stopped (unavailable r) else skipped r
  after_search w none alone query max_results recent_days (broke r) = stopped (broke r)
  after_search w (some name) alone query max_results recent_days (broke r) =
      or_fallback w (some name) query max_results recent_days [] r

  abbrev pub next_source : List (List Lead) → Tried → Sofar
  next_source per_source (tried results r) = going (per_source ++ results ∷ []) r
  next_source per_source (skipped r) = going per_source r
  next_source per_source (stopped s) = ended s

  abbrev pub try_source : Web → Option Text → Bool → Text → ℕ → Option ℕ → Text → Sofar → Sofar
  try_source w fallback alone query max_results recent_days name (ended s) = ended s
  try_source w fallback alone query max_results recent_days name (going per_source r) =
      next_source per_source (
        after_search w fallback alone query max_results recent_days
          (discover_from w name query max_results recent_days r))

  -- The loop over the sources.
  abbrev pub try_all : Web → Option Text → Bool → Text → ℕ → Option ℕ → List Text → Sofar → Sofar
  try_all w fallback alone query max_results recent_days [] x = x
  try_all w fallback alone query max_results recent_days (name ∷ names) x =
      try_all w fallback alone query max_results recent_days names
        (try_source w fallback alone query max_results recent_days name x)

  abbrev pub merged : Sofar → Search
  merged (going per_source r) =
      got_leads (filter (λ l. not (is_blocked l.url)) (interleave per_source)) r
  merged (ended s) = s

  -- No sources: the default one, with the fallback.
  unfoldable pub discover : Web → Text → ℕ → Option ℕ → List Text → Run → Search
  discover w query max_results recent_days [] r =
      merged
        (try_all w (fallback_of w) true query max_results recent_days (w.default ∷ []) (going [] r))
  discover w query max_results recent_days (name ∷ []) r =
      merged (try_all w none true query max_results recent_days (name ∷ []) (going [] r))
  discover w query max_results recent_days (name ∷ other ∷ names) r =
      merged
        (try_all w none false query max_results recent_days (name ∷ other ∷ names) (going [] r))
