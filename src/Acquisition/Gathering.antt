-- ===== src/Acquisition/Gathering.antt =====
-- Gathering documents for queries (`gather` in src/collegium/acquisition/__init__.py).
use collegium.Prelude.{
  ℕ, Option, none, some, List, [], ◌∷◌, ltb, if◌then◌else◌, map, take, sort, or_default,
}
use collegium.Text.{Text, text_eq}
use collegium.Acquisition.{
  Document, Run, Outcome, got, exhausted, raised, extract, has_text, with_signals,
}
use collegium.Acquisition.Merging.{Lead, urls_of}
use collegium.Acquisition.Leads.{
  Web, Search, got_leads, no_budget, unavailable, broke, reader_of, discover, document_of,
}

abbrev pub score_of : Lead → ℕ
score_of l = or_default l.score 0

-- `best`, in the order of the first mention of each address: the lead with the highest score.
abbrev pub keep_best : Lead → List Lead → List Lead
keep_best l [] = l ∷ []
keep_best l (b ∷ best) =
    let later = keep_best l best in
    if text_eq b.url l.url
    then (if ltb (score_of b) (score_of l) then l ∷ best else b ∷ best)
    else b ∷ later

abbrev pub keep_all : List Lead → List Lead → List Lead
keep_all [] best = best
keep_all (l ∷ results) best = keep_all results (keep_best l best)

-- The leads so far, or how a search ended.
pub data Gathering : Type 0 where
  gathering : List Lead → Run → Gathering
  gave_up : Search → Gathering

pub data Gathered : Type 0 where
  gathered : List Document → Run → Gathered
  failed : Search → Gathered

abbrev pub with_results : List Lead → Search → Gathering
with_results best (got_leads results r) = gathering (keep_all results best) r
with_results best (no_budget r) = gave_up (no_budget r)
with_results best (unavailable r) = gave_up (unavailable r)
with_results best (broke r) = gave_up (broke r)

abbrev pub chosen : ℕ → List Lead → List Lead
chosen max_documents best = take max_documents (sort (λ a b. ltb (score_of b) (score_of a)) best)

abbrev pub content_of : Option Document → Lead → Text
content_of none l = l.snippet
content_of (some d) l = if has_text d then d.content else l.snippet

abbrev pub signals_of : Option Document → List Text
signals_of none = []
signals_of (some d) = d.signals

module _ (sanitize : Text → Text × List Text) (clean_text : Text → Text) where
  abbrev pub gather_one : Web → ℕ → Text → Gathering → Gathering
  gather_one w max_results query (gave_up s) = gave_up s
  gather_one w max_results query (gathering best r) =
      with_results best (discover sanitize clean_text w query max_results none [] r)

  -- The loop over the queries.
  abbrev pub gather_more : Web → ℕ → List Text → Gathering → Gathering
  gather_more w max_results [] x = x
  gather_more w max_results (query ∷ queries) x =
      gather_more w max_results queries (gather_one w max_results query x)

  abbrev pub document_for : ℕ → List Document → Lead → Document
  document_for max_chars extracted l =
      let d = document_of l.url extracted in
      record {
        url = l.url;
        title = l.title;
        content = take max_chars (clean_text (content_of d l));
        signals = with_signals l.signals (signals_of d);
      }

  abbrev pub documents_for : ℕ → List Lead → Outcome (List Document) → Gathered
  documents_for max_chars picked (got extracted r) =
      gathered (map (document_for max_chars extracted) picked) r
  documents_for max_chars picked (exhausted r) = failed (no_budget r)
  documents_for max_chars picked (raised r) = failed (broke r)

  abbrev pub read_chosen : Web → ℕ → ℕ → Gathering → Gathered
  read_chosen w max_documents max_chars (gave_up s) = failed s
  read_chosen w max_documents max_chars (gathering best r) =
      let picked = chosen max_documents best in
      documents_for max_chars picked (extract sanitize (reader_of w) (urls_of picked) r)

  unfoldable pub gather : Web → List Text → ℕ → ℕ → ℕ → Run → Gathered
  gather w queries max_results max_documents max_chars r =
      read_chosen w max_documents max_chars (gather_more w max_results queries (gathering [] r))
