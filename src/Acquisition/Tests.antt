-- ===== src/Acquisition/Tests.antt =====
-- Reading pages on a small example: the free extractor reads nothing, the paid one reads everything.
use collegium.Prelude.{
  ℕ, if◌then◌else◌, sort, ◌≡◌, refl, true, false, none, some, [], ◌∷◌, List, map, Memᴰ, ◌⊎◌,
}
use collegium.Text.{Text, codes, text_eq, text_in}
use collegium.Text.Url.{hostname, urlsplit}
use collegium.Reliability.{is_blocked, worth_paying, classify, host_of}
use collegium.Acquisition.{Document, Extractor, Acquisition, Run, got, extract, call}
use collegium.Acquisition.Budget.{IsThrifty, fresh_run}
use collegium.Acquisition.Once.{extract-again}
use collegium.Acquisition.Merging.{Lead, nth, urls_of, interleave}
use collegium.Acquisition.Merged.{Once, interleave-Once}
use collegium.Acquisition.Leads.{leads, broken, Provider, Web, discover, call_search}
use collegium.Acquisition.Gathering.{Gathered, gathered, failed, gather}
use collegium.Acquisition.Gathered.{IsWithin, gather-IsWithin}
use collegium.Acquisition.Searching.{is_short, discover-default}
use collegium.Acquisition.Several.{search_of, Merges, Breaks, discover-several}
use collegium.Acquisition.Thrift.{after_of}
use collegium.Acquisition.Spending.{run_gathered, starts, discovers, gathers, Working-IsThrifty}

abbrev free_reader : Extractor
free_reader = record { metered = false; read = λ urls. some [] }

abbrev page : Text → Document
page u = record { url = u; title = []; content = codes "text"; signals = [] }

abbrev paid_reader : Extractor
paid_reader = record { metered = true; read = λ urls. some (map page urls) }

abbrev setup : Acquisition
setup = record {
  extractor = free_reader;
  fallback = some paid_reader;
  metered_default = false;
  budget = none;
  paid_history = none;
}

abbrev same_text : Text → Text × List Text
same_text t = (t, [])

abbrev article : Text
article = codes "https://a.org/x"

abbrev after_article : Run
after_article = record {
  paid_calls = 1;
  pages = (article, some (page article)) ∷ [];
  calls =
      record { paid = false; urls = article ∷ [] }
      ∷ record { paid = true; urls = article ∷ [] }
      ∷ [];
}

reads_article :
    extract same_text setup (article ∷ article ∷ []) fresh_run
    ≡ got (page article ∷ []) after_article
unfolding extract call is_blocked worth_paying classify host_of hostname urlsplit
reads_article = refl

extract-again_example :
    extract same_text setup (article ∷ article ∷ []) after_article
    ≡ got (page article ∷ []) after_article
extract-again_example =
    extract-again same_text setup (article ∷ article ∷ []) fresh_run after_article
      (page article ∷ []) reads_article

-- A free search that finds nothing of the second query, and a paid one that finds one thing.
abbrev lead : Text → ℕ → Lead
lead u score = record {
  url = u;
  title = codes "a title";
  snippet = codes "a snippet";
  score = some score;
  signals = [];
}

abbrev free_search : Provider
free_search = record {
  metered = false;
  thin_leads = false;
  answer = λ query max_results recent_days.
      (if text_eq query (codes "schools")
        then leads (lead article 1 ∷ lead (codes "https://b.org/y") 5 ∷ lead article 9 ∷ [])
        else broken);
}

abbrev paid_search : Provider
paid_search = record {
  metered = true;
  thin_leads = false;
  answer = λ query max_results recent_days. leads (lead (codes "https://c.org/z") 3 ∷ []);
}

abbrev web : Web
web = record {
  reader = setup;
  discovery = (codes "searxng", free_search) ∷ (codes "tavily", paid_search) ∷ [];
  default = codes "searxng";
  fallback_search = some (codes "tavily");
}

abbrev queries : List Text
queries = codes "schools" ∷ codes "roads" ∷ []

-- The two best of the three addresses, each cut to two characters.
abbrev two_documents : List Document
two_documents =
    record {
      url = codes "https://b.org/y";
      title = codes "a title";
      content = codes "te";
      signals = [];
    }
    ∷ record {
      url = codes "https://c.org/z";
      title = codes "a title";
      content = codes "te";
      signals = [];
    }
    ∷ []

abbrev after_gathering : Gathered → Run
after_gathering (gathered documents r) = r
after_gathering (failed s) = fresh_run

gathers_two :
    gather same_text (λ t. t) web queries 5 2 2 fresh_run
    ≡ gathered two_documents
        (after_gathering (gather same_text (λ t. t) web queries 5 2 2 fresh_run))
unfolding gather discover call_search interleave sort extract call is_blocked worth_paying classify
    host_of hostname urlsplit
gathers_two = refl

gather-IsWithin_example : IsWithin 2 2 two_documents
gather-IsWithin_example =
    gather-IsWithin same_text (λ t. t) web queries 5 2 2 fresh_run
      (after_gathering (gather same_text (λ t. t) web queries 5 2 2 fresh_run)) two_documents
      gathers_two

abbrev two_names : List Text
two_names = codes "tavily" ∷ codes "searxng" ∷ []

discover-several_example :
    Merges
      (search_of same_text (λ t. t) web (codes "roads") 5 none)
      after_article
      two_names
      (discover same_text (λ t. t) web (codes "roads") 5 none two_names after_article)
    ⊎ Breaks
        (search_of same_text (λ t. t) web (codes "roads") 5 none)
        two_names
        (discover same_text (λ t. t) web (codes "roads") 5 none two_names after_article)
discover-several_example =
    discover-several same_text (λ t. t) web (codes "roads") 5 none (codes "tavily")
      (codes "searxng") [] after_article

discover-default_example :
    is_short (discover same_text (λ t. t) web (codes "roads") 5 none [] after_article) ≡ false
discover-default_example =
    discover-default same_text (λ t. t) web (codes "roads") 5 none refl after_article

Working-IsThrifty_example : IsThrifty (
    run_gathered (
      gather same_text
        (λ t. t)
        web
        queries
        5
        2
        2
        (after_of (discover same_text (λ t. t) web (codes "roads") 5 none [] fresh_run))))
Working-IsThrifty_example =
    Working-IsThrifty same_text (λ t. t) web
      (run_gathered (
        gather same_text (λ t. t) web queries 5 2 2
          (after_of (discover same_text (λ t. t) web (codes "roads") 5 none [] fresh_run))))
      refl (gathers (discovers starts (codes "roads") 5 none []) queries 5 2 2)

abbrev shared_lists : List (List Lead)
shared_lists =
    (lead (codes "https://a.org/1") 1 ∷ lead (codes "https://b.org/2") 2 ∷ [])
    ∷ (lead (codes "https://b.org/2") 3 ∷ [])
    ∷ []

-- The second source's lead is given, once, though the first found it also.
interleave-Once_example :
    Once (interleave shared_lists)
    × ((results : List Lead) (k : ℕ) (l : Lead)
        → Memᴰ results shared_lists
        → nth k results ≡ some l
        → text_in (urls_of (interleave shared_lists)) l.url ≡ true)
interleave-Once_example = interleave-Once shared_lists
