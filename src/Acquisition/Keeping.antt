-- ===== src/Acquisition/Keeping.antt =====
-- What every external call keeps, a run's reading keeps until its pages are saved (`_call` and its
-- callers in src/collegium/acquisition/__init__.py).
use collegium.Prelude.{
  ◌≡◌, Bool, true, false, not, ◌&&◌, Option, none, some, List, [], ◌∷◌, leb, filter, Bool-cases,
  inl, inr,
}
use collegium.Text.{Text}
use collegium.Acquisition.{
  Document, Extractor, Acquisition, Run, Outcome, got, exhausted, raised, paid_first, is_day_spent,
  max_paid_per_run, answer_of, after_call, call, extract_with, unless_paid_first, with_fallback,
  and_fallback, unpaid, unread,
}
use collegium.Reliability.{worth_paying}

-- The state that the run goes on from, also after an exception.
abbrev pub run_of : {A : Type 0} → Outcome A → Run
run_of (got a r) = r
run_of (exhausted r) = r
run_of (raised r) = r

-- `P` is kept by a call that the run's limit allows.
module _ (a : Acquisition) (P : Run → Type 0)
    (step : (metered : Bool) (urls : List Text) (r : Run)
      → (metered && (not (paid_first a) && leb max_paid_per_run r.paid_calls)) ≡ false
      → P r
      → P (after_call metered urls r)) where
  answered-keeps :
      (result : Option (List Document)) (r : Run) → P r → P (run_of (answer_of result r))
  answered-keeps none r h = h
  answered-keeps (some documents) r h = h

  call-keeps : (e : Extractor) (urls : List Text) (r : Run) → P r → P (run_of (call a e urls r))
  unfolding call
  call-keeps e urls r h = elim (Bool-cases (e.metered && is_day_spent a.budget r.paid_calls)) [
    | inl spent ↦ rw spent h
    | inr open_day ↦
        elim (Bool-cases (e.metered && (not (paid_first a) && leb max_paid_per_run r.paid_calls))) [
          | inl spent ↦ rw (open_day, spent) h
          | inr allowed ↦
              rw (open_day, allowed)
                (answered-keeps (e.read urls) (after_call e.metered urls r)
                  (step e.metered urls r allowed h))
        ]
  ]

  pub extract_with-keeps :
      (e : Extractor) (urls : List Text) (r : Run) → P r → P (run_of (extract_with a e urls r))
  extract_with-keeps e [] r h = h
  extract_with-keeps e (u ∷ urls) r h = call-keeps e (u ∷ urls) r h

  unless-keeps :
      (paying : Bool) (documents : List Document) (o : Outcome (List Document))
      → P (run_of o)
      → P (run_of (unless_paid_first paying documents o))
  unless-keeps paying documents (got more r) h = h
  unless-keeps true documents (exhausted r) h = h
  unless-keeps false documents (exhausted r) h = h
  unless-keeps paying documents (raised r) h = h

  with_fallback-keeps :
      (fallback : Option Extractor) (rest : List Text) (documents : List Document) (r : Run)
      → P r
      → P (run_of (with_fallback a fallback rest documents r))
  with_fallback-keeps none rest documents r h = h
  with_fallback-keeps (some e) rest documents r h =
      unless-keeps (paid_first a) documents
        (extract_with a e (unpaid a.paid_history (filter worth_paying rest)) r)
        (extract_with-keeps e (unpaid a.paid_history (filter worth_paying rest)) r h)

  pub and_fallback-keeps :
      (todo : List Text) (o : Outcome (List Document))
      → P (run_of o)
      → P (run_of (and_fallback a todo o))
  and_fallback-keeps todo (got documents r) h =
      with_fallback-keeps a.fallback (unread documents todo) documents r h
  and_fallback-keeps todo (exhausted r) h = h
  and_fallback-keeps todo (raised r) h = h
