-- ===== src/Acquisition/Several.antt =====
-- A search of several sources (`discover` in src/collegium/acquisition/__init__.py).
use collegium.Prelude.{
  append_one, ℕ, ◌≡◌, ◌⊎◌, inl, inr, refl, sym, ◌∙◌, ap, false, not, Option, none, List, [], ◌∷◌,
  ◌++◌, filter, Memᴰ,
}
use mathlib.Core.List.{append-nil}
use collegium.Text.{Text}
use collegium.Reliability.{is_blocked}
use collegium.Acquisition.{Run}
use collegium.Acquisition.Merging.{Lead, interleave}
use collegium.Acquisition.Leads.{
  Web, Search, got_leads, no_budget, unavailable, broke, discover_from, Sofar, going, ended,
  try_source, try_all, discover,
}

-- Sources that are searched one after another from a run: the leads of those that answer, in their
-- order. One whose budget is spent, or that is unavailable, is left out.
pub data Searched (search : Text → Run → Search)
    : Run → List Text → List (List Lead) → Run → Type 0 where
  all_asked : {r : Run} → Searched search r [] [] r
  with_leads :
      {r after end : Run} {name : Text} {names : List Text} {results : List Lead}
      {more : List (List Lead)}
      → search name r ≡ got_leads results after
      → Searched search after names more end
      → Searched search r (name ∷ names) (results ∷ more) end
  without_budget :
      {r after end : Run} {name : Text} {names : List Text} {more : List (List Lead)}
      → search name r ≡ no_budget after
      → Searched search after names more end
      → Searched search r (name ∷ names) more end
  without_answer :
      {r after end : Run} {name : Text} {names : List Text} {more : List (List Lead)}
      → search name r ≡ unavailable after
      → Searched search after names more end
      → Searched search r (name ∷ names) more end

-- One of the sources raised an exception, after which the run is `end`.
pub record Raised (search : Text → Run → Search) (names : List Text) (end : Run) : Type 0 where
  pub name : Text
  pub listed : Memᴰ name names
  pub before : Run
  pub raised : search name before ≡ broke end

-- What the loop adds to the leads so far.
pub record Adds (search : Text → Run → Search) (r : Run) (names : List Text)
    (per_source : List (List Lead)) (x : Sofar) : Type 0 where
  pub more : List (List Lead)
  pub end : Run
  pub searched : Searched search r names more end
  pub added : x ≡ going (per_source ++ more) end

pub record Stops (search : Text → Run → Search) (names : List Text) (x : Sofar) : Type 0 where
  pub end : Run
  pub raised : Raised search names end
  pub stopped : x ≡ ended (broke end)

-- Every source that can be searched was, and the leads of those that answered are merged.
pub record Merges (search : Text → Run → Search) (r : Run) (names : List Text) (s : Search)
    : Type 0 where
  pub lists : List (List Lead)
  pub end : Run
  pub searched : Searched search r names lists end
  pub merged : s ≡ got_leads (filter (λ l. not (is_blocked l.url)) (interleave lists)) end

pub record Breaks (search : Text → Run → Search) (names : List Text) (s : Search) : Type 0 where
  pub end : Run
  pub raised : Raised search names end
  pub broken : s ≡ broke end

Stops-later :
    (search : Text → Run → Search) (name : Text) (names : List Text) (x : Sofar)
    → Stops search names x
    → Stops search (name ∷ names) x
Stops-later search name names x s = record {
  end = s.end;
  raised = record {
    name = s.raised.name;
    listed = Memᴰ.tail s.raised.listed;
    before = s.raised.before;
    raised = s.raised.raised;
  };
  stopped = s.stopped;
}

module _ (sanitize : Text → Text × List Text) (clean : Text → Text) (w : Web) (query : Text)
    (max_results : ℕ) (recent_days : Option ℕ) where
  abbrev pub search_of : Text → Run → Search
  search_of name r = discover_from sanitize clean w name query max_results recent_days r

  -- The loop over the sources, from some leads.
  abbrev loop : List Text → Sofar → Sofar
  loop names x = try_all sanitize clean w none false query max_results recent_days names x

  loop-ended : (names : List Text) (s : Search) → loop names (ended s) ≡ ended s
  loop-ended [] s = refl
  loop-ended (name ∷ names) s = loop-ended names s

  abbrev LoopEnds : Run → List Text → List (List Lead) → Sofar → Type 0
  LoopEnds r names per_source x = Adds search_of r names per_source x ⊎ Stops search_of names x

  abbrev tried_next : Text → List (List Lead) → Run → Sofar
  tried_next name per_source r =
      try_source sanitize clean w none false query max_results recent_days name (going per_source r)

  after_skip :
      (r after : Run) (name : Text) (names : List Text) (per_source : List (List Lead)) (x : Sofar)
      → ((more : List (List Lead)) (end : Run)
          → Searched search_of after names more end
          → Searched search_of r (name ∷ names) more end)
      → LoopEnds after names per_source x
      → LoopEnds r (name ∷ names) per_source x
  after_skip r after name names per_source x skip (inl a) = inl (record {
    more = a.more;
    end = a.end;
    searched = skip a.more a.end a.searched;
    added = a.added;
  })
  after_skip r after name names per_source x skip (inr s) =
      inr (Stops-later search_of name names x s)

  after_leads :
      (r after : Run) (name : Text) (names : List Text) (per_source : List (List Lead))
      (results : List Lead) (x : Sofar)
      → search_of name r ≡ got_leads results after
      → LoopEnds after names (per_source ++ results ∷ []) x
      → LoopEnds r (name ∷ names) per_source x
  after_leads r after name names per_source results x e (inl a) = inl (record {
    more = results ∷ a.more;
    end = a.end;
    searched = with_leads e a.searched;
    added = a.added ∙ ap (λ lists. going lists a.end) (append_one per_source results a.more);
  })
  after_leads r after name names per_source results x e (inr s) =
      inr (Stops-later search_of name names x s)

  loop-LoopEnds :
      (names : List Text) (per_source : List (List Lead)) (r : Run)
      → LoopEnds r names per_source (loop names (going per_source r))
  loop-LoopEnds [] per_source r = inl (record {
    more = [];
    end = r;
    searched = all_asked;
    added = ap (λ lists. going lists r) (sym (append-nil per_source));
  })
  loop-LoopEnds (name ∷ names) per_source r = step (loop-LoopEnds names) (search_of name r) refl
    where
      step :
          ((lists : List (List Lead)) (after : Run)
            → LoopEnds after names lists (loop names (going lists after)))
          → (s : Search) → search_of name r ≡ s
          → LoopEnds r (name ∷ names) per_source (loop names (tried_next name per_source r))
      step later (got_leads results after) e = rw e (
          after_leads r after name names per_source results _ e
            (later (per_source ++ results ∷ []) after))
      step later (no_budget after) e = rw e (
          after_skip r after name names per_source _ (λ more end h. without_budget e h)
            (later per_source after))
      step later (unavailable after) e = rw e (
          after_skip r after name names per_source _ (λ more end h. without_answer e h)
            (later per_source after))
      step later (broke after) e = inr (record {
        end = after;
        raised = record { name = name; listed = Memᴰ.head refl; before = r; raised = e };
        stopped = rw e (loop-ended names (broke after));
      })

  -- A search of two sources or more asks each of them in turn. It gives the merged leads of all that
  -- answer, less those of blocked sites, where one whose budget is spent or that is unavailable is
  -- left out; or it raises the exception that one of them raised.
  pub discover-several :
      (first second : Text) (names : List Text) (r : Run)
      → let s =
          discover sanitize clean w query max_results recent_days (first ∷ second ∷ names) r in
        Merges search_of r (first ∷ second ∷ names) s ⊎ Breaks search_of (first ∷ second ∷ names) s
  unfolding discover
  discover-several first second names r = elim (loop-LoopEnds (first ∷ second ∷ names) [] r) [
    | inl a ↦
        inl
          (record { lists = a.more; end = a.end; searched = a.searched; merged = rw a.added refl })
    | inr s ↦ inr (record { end = s.end; raised = s.raised; broken = rw s.stopped refl })
  ]
