-- ===== src/Acquisition/Spending.antt =====
-- What a run spends that reads, searches and gathers (`extract`, `discover` and `gather` in
-- src/collegium/acquisition/__init__.py).
use collegium.Prelude.{ℕ, ◌≡◌, refl, false, Option, none, List, [], ◌∷◌, arith}
use collegium.Text.{Text}
use collegium.Acquisition.{Document, Run, Outcome, got, exhausted, raised, paid_first, extract}
use collegium.Acquisition.Keeping.{run_of}
use collegium.Acquisition.Budget.{IsThrifty, extract-IsThrifty, fresh_run}
use collegium.Acquisition.Merging.{Lead, urls_of}
use collegium.Acquisition.Leads.{
  Web, Search, got_leads, no_budget, unavailable, broke, reader_of, discover,
}
use collegium.Acquisition.Gathering.{
  Gathering, gathering, gave_up, Gathered, gathered, failed, with_results, chosen, gather_more,
  documents_for, read_chosen, gather,
}
use collegium.Acquisition.Thrift.{after_of, discover-IsThrifty}

abbrev run_gathering : Gathering → Run
run_gathering (gathering best r) = r
run_gathering (gave_up s) = after_of s

abbrev pub run_gathered : Gathered → Run
run_gathered (gathered documents r) = r
run_gathered (failed s) = after_of s

with_results-IsThrifty :
    (best : List Lead) (s : Search)
    → IsThrifty (after_of s)
    → IsThrifty (run_gathering (with_results best s))
with_results-IsThrifty best (got_leads results r) h = h
with_results-IsThrifty best (no_budget r) h = h
with_results-IsThrifty best (unavailable r) h = h
with_results-IsThrifty best (broke r) h = h

module _ (sanitize : Text → Text × List Text) (clean : Text → Text) where
  documents_for-IsThrifty :
      (max_chars : ℕ) (picked : List Lead) (o : Outcome (List Document))
      → IsThrifty (run_of o)
      → IsThrifty (run_gathered (documents_for sanitize clean max_chars picked o))
  documents_for-IsThrifty max_chars picked (got extracted r) h = h
  documents_for-IsThrifty max_chars picked (exhausted r) h = h
  documents_for-IsThrifty max_chars picked (raised r) h = h

  module _ (w : Web) (free : paid_first (reader_of w) ≡ false) where
    gather_more-IsThrifty :
        (max_results : ℕ) (queries : List Text) (x : Gathering)
        → IsThrifty (run_gathering x)
        → IsThrifty (run_gathering (gather_more sanitize clean w max_results queries x))
    gather_more-IsThrifty max_results [] x h = h
    gather_more-IsThrifty max_results (query ∷ queries) (gave_up s) h =
        gather_more-IsThrifty max_results queries (gave_up s) h
    gather_more-IsThrifty max_results (query ∷ queries) (gathering best r) h =
        let s = discover sanitize clean w query max_results none [] r in
        gather_more-IsThrifty max_results queries (with_results best s) (
          with_results-IsThrifty best s
            (discover-IsThrifty sanitize clean w free query max_results none [] r h))

    read_chosen-IsThrifty :
        (max_documents max_chars : ℕ) (x : Gathering)
        → IsThrifty (run_gathering x)
        → IsThrifty (run_gathered (read_chosen sanitize clean w max_documents max_chars x))
    read_chosen-IsThrifty max_documents max_chars (gave_up s) h = h
    read_chosen-IsThrifty max_documents max_chars (gathering best r) h =
        let picked = chosen max_documents best in
        documents_for-IsThrifty max_chars picked (extract sanitize (reader_of w) (urls_of picked) r)
          (extract-IsThrifty (reader_of w) free sanitize (urls_of picked) r h)

-- What a run may do, in any order, also after an exception.
pub data Working (sanitize : Text → Text × List Text) (clean : Text → Text) (w : Web)
    : Run → Type 0 where
  starts : Working sanitize clean w fresh_run
  reads :
      {r : Run}
      → Working sanitize clean w r
      → (urls : List Text)
      → Working sanitize clean w (run_of (extract sanitize (reader_of w) urls r))
  discovers :
      {r : Run}
      → Working sanitize clean w r
      → (query : Text) (max_results : ℕ) (recent_days : Option ℕ) (sources : List Text)
      → Working sanitize clean w
          (after_of (discover sanitize clean w query max_results recent_days sources r))
  gathers :
      {r : Run}
      → Working sanitize clean w r
      → (queries : List Text) (max_results max_documents max_chars : ℕ)
      → Working sanitize clean w
          (run_gathered (gather sanitize clean w queries max_results max_documents max_chars r))

-- Where the default search and the first extractor are free, a run makes at most three paid calls,
-- however often it reads, searches and gathers, and whatever the providers answer or raise.
pub Working-IsThrifty :
    (sanitize : Text → Text × List Text) (clean : Text → Text) (w : Web) (r : Run)
    → paid_first (reader_of w) ≡ false
    → Working sanitize clean w r
    → IsThrifty r
unfolding gather
Working-IsThrifty sanitize clean w r free starts = record { counted = refl; bounded = omega arith }
Working-IsThrifty sanitize clean w r free (reads d urls) =
    extract-IsThrifty (reader_of w) free sanitize urls _
      (Working-IsThrifty sanitize clean w _ free d)
Working-IsThrifty sanitize clean w r free (discovers d query max_results recent_days sources) =
    discover-IsThrifty sanitize clean w free query max_results recent_days sources _
      (Working-IsThrifty sanitize clean w _ free d)
Working-IsThrifty sanitize clean w r free
      (gathers {r = r'} d queries max_results max_documents max_chars) =
    let x = gather_more sanitize clean w max_results queries (gathering [] r') in
    read_chosen-IsThrifty sanitize clean w free max_documents max_chars x (
      gather_more-IsThrifty sanitize clean w free max_results queries (gathering [] r')
        (Working-IsThrifty sanitize clean w r' free d))
