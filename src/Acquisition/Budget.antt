-- ===== src/Acquisition/Budget.antt =====
-- What a run spends (`_call` and its callers in src/collegium/acquisition/__init__.py).
use collegium.Prelude.{
  ℕ, suc, ◌≤◌, ◌≡◌, Bool, false, not, ◌&&◌, List, [], ◌∷◌, ◌++◌, leb, filter, length, arith,
  if◌then◌else◌,
}
use collegium.Text.{Text}
use collegium.Acquisition.{
  Document, Acquisition, Call, Run, Outcome, got, exhausted, raised, paid_first, max_paid_per_run,
  after_call, extract_with, and_fallback, save, read_new, answer_with, extract, readable, has_page,
}
use collegium.Acquisition.Keeping.{run_of, and_fallback-keeps, extract_with-keeps}

abbrev pub paid_count : List Call → ℕ
paid_count calls = length (filter (λ (c : Call). c.paid) calls)

-- The count is that of the calls, and it keeps to the limit of a run.
pub record IsThrifty (r : Run) : Type 0 where
  pub counted : paid_count r.calls ≡ r.paid_calls
  pub bounded : r.paid_calls ≤ 3

paid_count-append :
    (calls : List Call) (paid : Bool) (urls : List Text)
    → paid_count (calls ++ record { paid = paid; urls = urls } ∷ [])
      ≡ (if paid then suc (paid_count calls) else paid_count calls)
paid_count-append [] paid urls = ground arith
paid_count-append (c ∷ calls) paid urls = ground (arith, paid_count-append calls paid urls)

module _ (a : Acquisition) (free_first : paid_first a ≡ false) where
  pub called-IsThrifty :
      (metered : Bool) (urls : List Text) (r : Run)
      → (metered && (not (paid_first a) && leb max_paid_per_run r.paid_calls)) ≡ false
      → IsThrifty r
      → IsThrifty (after_call metered urls r)
  called-IsThrifty metered urls r allowed h = record {
    counted = ground (arith, paid_count-append r.calls metered urls, h.counted);
    bounded = ground (arith, free_first, h.bounded);
  }

  module _ (sanitize : Text → Text × List Text) where
    save-IsThrifty :
        (todo : List Text) (o : Outcome (List Document))
        → IsThrifty (run_of o)
        → IsThrifty (run_of (save sanitize todo o))
    save-IsThrifty todo (got documents r) h = record { counted = h.counted; bounded = h.bounded }
    save-IsThrifty todo (exhausted r) h = h
    save-IsThrifty todo (raised r) h = h

    read_new-IsThrifty :
        (todo : List Text) (r : Run) → IsThrifty r → IsThrifty (run_of (read_new sanitize a todo r))
    read_new-IsThrifty [] r h = h
    read_new-IsThrifty (u ∷ todo) r h =
        let first = extract_with a a.extractor (u ∷ todo) r in
        save-IsThrifty (u ∷ todo) (and_fallback a (u ∷ todo) first) (
          and_fallback-keeps a IsThrifty called-IsThrifty (u ∷ todo) first
            (extract_with-keeps a IsThrifty called-IsThrifty a.extractor (u ∷ todo) r h))

    answer_with-IsThrifty :
        (urls : List Text) (o : Outcome Unit)
        → IsThrifty (run_of o)
        → IsThrifty (run_of (answer_with sanitize urls o))
    answer_with-IsThrifty urls (got done r) h = h
    answer_with-IsThrifty urls (exhausted r) h = h
    answer_with-IsThrifty urls (raised r) h = h

    pub extract-IsThrifty :
        (urls : List Text) (r : Run) → IsThrifty r → IsThrifty (run_of (extract sanitize a urls r))
    unfolding extract
    extract-IsThrifty urls r h =
        let todo = filter (λ u. not (has_page r.pages u)) (readable urls) in
        answer_with-IsThrifty (readable urls) (read_new sanitize a todo r)
          (read_new-IsThrifty todo r h)

abbrev pub fresh_run : Run
fresh_run = record { paid_calls = 0; pages = []; calls = [] }
