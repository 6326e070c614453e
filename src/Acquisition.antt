-- ===== src/Acquisition.antt =====
-- Reading pages during one run of a role (src/collegium/acquisition/__init__.py: `_call`,
-- `_extract_with` and `extract`). The extractors, the day's budget and what was paid for before are
-- the outside's; so is `sanitize` (src/collegium/untrusted.py), which is taken as it comes. Of a
-- document's columns the address, the title, the text and its signals are kept.
pub mod Merging
pub mod Merged
pub mod Leads
pub mod Searching
pub mod Several
pub mod Gathering
pub mod Gathered
pub mod Thrift
pub mod Spending
pub mod Keeping
pub mod Budget
pub mod Once
mod Tests
use collegium.Prelude.{
  ℕ, suc, Bool, true, false, not, ◌&&◌, ◌||◌, Option, none, some, List, [], ◌∷◌, ◌++◌, leb, ◌==◌,
  if◌then◌else◌, filter, map,
}
use collegium.Text.{Text, text_eq, text_in, is_blank}
use collegium.Reliability.{is_blocked, worth_paying, site_of}

pub record Document : Type 0 where
  pub url : Text
  pub title : Text
  pub content : Text
  -- metadata.injection_signals, in any order
  pub signals : List Text

-- `metered`, and what `extract` returns for some addresses; `none` is an exception.
pub record Extractor : Type 0 where
  pub metered : Bool
  pub read : List Text → Option (List Document)

-- The configuration of a run. `budget` says how many paid calls the day still allows after this many
-- of the run's own; `paid_history` gives the addresses paid for before, and the closed sites.
pub record Acquisition : Type 0 where
  pub extractor : Extractor
  pub fallback : Option Extractor
  pub metered_default : Bool
  pub budget : Option (ℕ → ℕ)
  pub paid_history : Option (List Text → List Text × List Text)

-- An external call, as `_record` keeps it.
pub record Call : Type 0 where
  pub paid : Bool
  pub urls : List Text

-- `_paid_calls` and `_pages`, the newest entry of an address first, and the calls made so far.
pub record Run : Type 0 where
  pub paid_calls : ℕ
  pub pages : List (Text × Option Document)
  pub calls : List Call

-- A result, or BudgetExhausted, or another exception; each with the run's state then.
pub data Outcome (A : Type 0) : Type 0 where
  got : A → Run → Outcome A
  exhausted raised : Run → Outcome A

abbrev pub max_paid_per_run : ℕ
max_paid_per_run = 3

abbrev pub paid_first : Acquisition → Bool
paid_first a = a.metered_default || a.extractor.metered

-- `self._budget is not None and self._budget() <= 0`
abbrev pub is_day_spent : Option (ℕ → ℕ) → ℕ → Bool
is_day_spent none paid_calls = false
is_day_spent (some budget) paid_calls = leb (budget paid_calls) 0

abbrev pub answer_of : {A : Type 0} → Option A → Run → Outcome A
answer_of none r = raised r
answer_of (some a) r = got a r

abbrev pub after_call : Bool → List Text → Run → Run
after_call metered urls r = record r {
  paid_calls = if metered then suc r.paid_calls else r.paid_calls;
  calls = r.calls ++ record { paid = metered; urls = urls } ∷ [];
}

-- `_call`, of reading these addresses.
unfoldable pub call : Acquisition → Extractor → List Text → Run → Outcome (List Document)
call a e urls r =
    if e.metered && is_day_spent a.budget r.paid_calls
    then exhausted r
    else if e.metered && (not (paid_first a) && leb max_paid_per_run r.paid_calls)
    then exhausted r
    else answer_of (e.read urls) (after_call e.metered urls r)

-- `_extract_with`
abbrev pub extract_with : Acquisition → Extractor → List Text → Run → Outcome (List Document)
extract_with a e [] r = got [] r
extract_with a e (u ∷ urls) r = call a e (u ∷ urls) r

-- `list(dict.fromkeys(urls))`
abbrev pub first_seen : List Text → List Text
first_seen [] = []
first_seen (u ∷ urls) = u ∷ filter (λ v. not (text_eq v u)) (first_seen urls)

abbrev pub readable : List Text → List Text
readable urls = filter (λ u. not (is_blocked u)) (first_seen urls)

-- `self._pages.get(u)`, and whether the key is there.
abbrev pub page_of : Text → List (Text × Option Document) → Option Document
page_of u [] = none
page_of u ((v, page) ∷ pages) = let later = page_of u pages in if text_eq v u then page else later

abbrev pub has_page : List (Text × Option Document) → Text → Bool
has_page [] u = false
has_page ((v, page) ∷ pages) u = text_eq v u || has_page pages u

abbrev pub has_text : Document → Bool
has_text d = not (is_blank d.content)

-- `rest` after the filters on what is worth a paid read.
abbrev pub unpaid : Option (List Text → List Text × List Text) → List Text → List Text
unpaid none rest = rest
unpaid (some history) [] = []
unpaid (some history) (u ∷ rest) =
    let (paid_before, closed_sites) = history (u ∷ rest) in
    filter (λ v. not (text_in paid_before v) && not (text_in closed_sites (site_of v))) (u ∷ rest)

-- A spent budget only ends the work when the main route is paid.
abbrev pub unless_paid_first :
    Bool → List Document → Outcome (List Document) → Outcome (List Document)
unless_paid_first paying documents (got more r) = got (documents ++ more) r
unless_paid_first true documents (exhausted r) = exhausted r
unless_paid_first false documents (exhausted r) = got documents r
unless_paid_first paying documents (raised r) = raised r

abbrev pub with_fallback :
    Acquisition → Option Extractor → List Text → List Document → Run → Outcome (List Document)
with_fallback a none rest documents r = got documents r
with_fallback a (some e) rest documents r =
    unless_paid_first (paid_first a) documents
      (extract_with a e (unpaid a.paid_history (filter worth_paying rest)) r)

-- What the first extractor did not read.
abbrev pub unread : List Document → List Text → List Text
unread documents todo =
    filter (λ u. not (text_in (map (λ (d : Document). d.url) (filter has_text documents)) u)) todo

abbrev pub and_fallback :
    Acquisition → List Text → Outcome (List Document) → Outcome (List Document)
and_fallback a todo (got documents r) =
    with_fallback a a.fallback (unread documents todo) documents r
and_fallback a todo (exhausted r) = exhausted r
and_fallback a todo (raised r) = raised r

-- `self._pages.setdefault(u, None)`, for each address.
abbrev pub set_defaults : List Text → List (Text × Option Document) → List (Text × Option Document)
set_defaults [] pages = pages
set_defaults (u ∷ urls) pages =
    set_defaults urls (if has_page pages u then pages else (u, none) ∷ pages)

abbrev pub collect : List Text → List (Text × Option Document) → List Document
collect [] pages = []
collect (u ∷ urls) pages =
    let rest = collect urls pages in
    elim (page_of u pages) [ none ↦ rest | some page ↦ page ∷ rest ]

-- `set(old) | set(new)`
abbrev pub with_signals : List Text → List Text → List Text
with_signals old new = old ++ filter (λ t. not (text_in old t)) (first_seen new)

module _ (sanitize : Text → Text × List Text) where
  -- `_clean_document`
  abbrev pub clean_document : Document → Document
  clean_document d = record d {
    title = (sanitize d.title).0;
    content = (sanitize d.content).0;
    signals = with_signals d.signals ((sanitize d.title).1 ++ (sanitize d.content).1);
  }

  abbrev pub keep : List Document → List (Text × Option Document) → List (Text × Option Document)
  keep [] pages = pages
  keep (d ∷ documents) pages =
      keep documents (if has_text d then (d.url, some (clean_document d)) ∷ pages else pages)

  abbrev pub save : List Text → Outcome (List Document) → Outcome Unit
  save todo (got documents r) =
      got tt (record r { pages = set_defaults todo (keep documents r.pages) })
  save todo (exhausted r) = exhausted r
  save todo (raised r) = raised r

  -- The addresses that this run has not asked for.
  abbrev pub read_new : Acquisition → List Text → Run → Outcome Unit
  read_new a [] r = got tt r
  read_new a (u ∷ todo) r =
      save (u ∷ todo) (and_fallback a (u ∷ todo) (extract_with a a.extractor (u ∷ todo) r))

  abbrev pub answer_with : List Text → Outcome Unit → Outcome (List Document)
  answer_with urls (got done r) = got (collect urls r.pages) r
  answer_with urls (exhausted r) = exhausted r
  answer_with urls (raised r) = raised r

  unfoldable pub extract : Acquisition → List Text → Run → Outcome (List Document)
  extract a urls r =
      let wanted = readable urls in
      answer_with wanted (read_new a (filter (λ u. not (has_page r.pages u)) wanted) r)
