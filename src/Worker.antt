-- ===== src/Worker.antt =====
-- The worker (src/collegium/worker.py, with start_run and finish_run of src/collegium/jobs.py and
-- paid_calls_in_window of src/collegium/memory.py): one claimed job and the run that is recorded for
-- it. A role's `prepare` is a parameter; it says what the role wants to write, or what it raised.
-- Notes, spans and logs are left out. The clock is read once. `searches_for` and `version`, which are
-- called outside the try, are taken to return: the one looks at the role's class or the job's payload,
-- and the other takes a digest of constants and prompts.
pub mod Ending
pub mod Calling
mod Tests
use collegium.Prelude.{
  ℕ, suc, ◌+◌, String, Bool, true, false, not, ◌&&◌, Option, none, some, List, [], ◌∷◌, ◌++◌, leb,
  ltb, ◌==◌, if◌then◌else◌, filter, length, any, update_where, least, map_option, or_default,
}
use collegium.Text.{Text, text_in}
use collegium.Jobs.{ask, draft, reply, Kind, Job, Queue, claim, succeed, fail, defer}
use collegium.Memory.{Memory}
use collegium.Db.{Db}
use collegium.Hours.{WorkingHours, is_open}

pub data RunStatus : Type 0 where
  run_open run_succeeded run_failed : RunStatus

pub record RunRow : Type 0 where
  pub id : ℕ
  pub job_id : ℕ
  pub status : RunStatus

-- A row of acquisitions: `failed_call` when its error is set.
pub record CallRow : Type 0 where
  pub provider : Text
  pub requested_at : ℕ
  pub failed_call : Bool

pub record Office : Type 0 where
  pub db : Db
  pub next_run : ℕ
  pub runs : List RunRow
  pub calls : List CallRow

-- The settings that count: the paid providers, the calls a day allows, and whether the main route is
-- paid.
pub record Settings : Type 0 where
  pub providers : List Text
  pub daily_call_budget : ℕ
  pub paid_first : Bool

-- What `prepare` comes to: a transaction, which may raise, or an exception.
pub data Work : Type 0 where
  persists : (Db → Option Db) → Work
  budget_exhausted search_unavailable : Work
  raises : String → Work

-- A role: whether it searches for this job, and what it prepares, with the calls recorded meanwhile.
pub record Role : Type 0 where
  pub searches_for : Job → Bool
  pub prepare : Job → Office → Work × List CallRow

pub data Ended : Type 0 where
  job_succeeded deferred_budget deferred_search_unavailable job_failed : Ended

-- ANY_HOUR
abbrev pub any_hour : List Kind
any_hour = ask ∷ draft ∷ reply ∷ []

-- SEARCH_RETRY, MIN_BUDGET_TO_START
abbrev pub search_retry : ℕ
search_retry = 1800

abbrev pub min_budget_to_start : ℕ
min_budget_to_start = 5

-- The calls of `paid_calls_in_window`, of the last 24 hours.
abbrev pub is_paid_call : ℕ → List Text → CallRow → Bool
is_paid_call now providers c =
    text_in providers c.provider && not c.failed_call && ltb now (c.requested_at + 86400)

abbrev pub paid_calls : ℕ → List Text → Office → List CallRow
paid_calls now providers w = filter (is_paid_call now providers) w.calls

abbrev pub oldest_of : List CallRow → Option ℕ
oldest_of calls =
    map_option (λ c. c.requested_at) (least (λ b c. ltb b.requested_at c.requested_at) calls)

abbrev pub is_none_metered : List Text → Bool
is_none_metered [] = true
is_none_metered (p ∷ providers) = false

-- `_budget_reopens`
unfoldable pub budget_reopens : Settings → ℕ → ℕ → Office → Option ℕ
budget_reopens s needed now w =
    let used = paid_calls now s.providers w in
    if is_none_metered s.providers
    then none
    else if leb (length used + needed) s.daily_call_budget
    then none
    else some (or_default (oldest_of used) now + 86460)

abbrev pub with_queue : (Queue → Queue) → Office → Office
with_queue change w = record w { db = record (w.db) { queue = change w.db.queue } }

-- jobs.start_run
abbrev pub start_run : Job → Office → ℕ × Office
start_run job w = (
  w.next_run,
  record w {
    next_run = suc w.next_run;
    runs = w.runs ++ record { id = w.next_run; job_id = job.id; status = run_open } ∷ [];
  },
)

-- jobs.finish_run
abbrev pub finish_run : ℕ → RunStatus → Office → Office
finish_run run_id status w = record w {
  runs = update_where (λ r. r.id == run_id) (λ r. record r { status = status }) w.runs;
}

abbrev pub give_up : ℕ → Job → ℕ → String → Office → Ended × Office
give_up now job run_id error w =
    (job_failed, with_queue (fail now job (some run_id) error) (finish_run run_id run_failed w))

abbrev pub put_back : Ended → Job → ℕ → ℕ → String → Office → Ended × Office
put_back ended job run_id until reason w =
    (ended, with_queue (defer job until reason) (finish_run run_id run_failed w))

-- The role's transaction: what it writes, the run's outcome and the job's completion, or none of it.
abbrev pub commit : ℕ → Job → ℕ → Option Db → Office → Ended × Office
commit now job run_id none w = give_up now job run_id "persist" w
commit now job run_id (some db) w =
    let finished = finish_run run_id run_succeeded (record w { db = db }) in
    (job_succeeded, with_queue (succeed now job.id (some run_id)) finished)

abbrev pub conclude : Settings → ℕ → Job → ℕ → Work → Office → Ended × Office
conclude s now job run_id (persists persist) w = commit now job run_id (persist w.db) w
conclude s now job run_id budget_exhausted w =
    let reopens = or_default (budget_reopens s 1 now w) (now + 3600) in
    put_back deferred_budget job run_id reopens "budget" w
conclude s now job run_id search_unavailable w =
    put_back deferred_search_unavailable job run_id (now + search_retry) "search" w
conclude s now job run_id (raises error) w = give_up now job run_id error w

abbrev pub work_on : Settings → Role → ℕ → Job → ℕ → Office → Ended × Office
work_on s role now job run_id w =
    let (work, calls) = role.prepare job w in
    conclude s now job run_id work (record w { calls = w.calls ++ calls })

-- When the job waits for the budget before anything is started.
abbrev pub waits_until : Settings → Role → ℕ → Job → Office → Option ℕ
waits_until s role now job w =
    if role.searches_for job && s.paid_first
    then budget_reopens s min_budget_to_start now w
    else none

abbrev pub start_unless : Settings → Role → ℕ → Job → Option ℕ → Office → Ended × Office
start_unless s role now job (some reopens) w =
    (deferred_budget, with_queue (defer job reopens "waiting for the daily call budget") w)
start_unless s role now job none w =
    let (run_id, started) = start_run job w in work_on s role now job run_id started

-- `_run_claimed_job`
unfoldable pub run_claimed_job : Settings → Role → ℕ → Job → Office → Ended × Office
run_claimed_job s role now job w = start_unless s role now job (waits_until s role now job w) w

-- `run_once`: the kind of the job chooses the role.
abbrev pub run_taken :
    Settings → (Kind → Role) → ℕ → Option (Job × Queue) → Office → Option (Ended × Office)
run_taken s roles now none w = none
run_taken s roles now (some (job, q)) w =
    some (run_claimed_job s (roles job.kind) now job (with_queue (λ _. q) w))

unfoldable pub run_once :
    Settings
    → (Kind → Role)
    → ℕ
    → Option (List Kind)
    → (ℕ → Bool)
    → Office
    → Option (Ended × Office)
run_once s roles now kinds locked w = run_taken s roles now (claim now kinds locked w.db.queue) w

-- The kinds that `run_forever` asks for: any within working hours.
abbrev pub kinds_at : WorkingHours → ℕ → Option (List Kind)
kinds_at h now = if is_open h now then none else some any_hour
