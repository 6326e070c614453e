-- ===== src/Worker/Ending.antt =====
-- How every claimed job ends (`_run_claimed_job` in src/collegium/worker.py).
use collegium.Prelude.{
  ℕ, ◌≡◌, ◌≢◌, ◌⊎◌, refl, Option, none, some, List, ◌++◌, String, All, All-any, arith, inl, inr,
  update_where, update_where-All, ◌==◌, All-append, All-map, or_default, ◌+◌, Bool-cases, ltb,
}
use collegium.Jobs.{running, JobRow, Job, Queue, succeed, fail, defer}
use collegium.Db.{Db}
use collegium.Memory.{Memory}
use collegium.Worker.{
  RunStatus, RunRow, run_open, run_failed, run_succeeded, deferred_budget,
  deferred_search_unavailable, budget_reopens, search_retry, Office, Settings, Role, Work, persists,
  budget_exhausted, search_unavailable, raises, Ended, job_succeeded, give_up, put_back, commit,
  conclude, start_unless, waits_until, run_claimed_job, finish_run, start_run,
}

-- No row with the job's id is running.
abbrev pub IsReleased : Job → Queue → Type 0
IsReleased job q = All (λ r. (r.id ≢ job.id) ⊎ (r.status ≢ running)) q.rows

released :
    (job : Job) (change : JobRow → JobRow) (rows : List JobRow)
    → ((r : JobRow) → (change r).status ≢ running)
    → All
        (λ r. (r.id ≢ job.id) ⊎ (r.status ≢ running))
        (update_where (λ r. r.id == job.id) change rows)
released job change rows stops =
    update_where-All (λ r. r ≡ r) (λ r. (r.id ≢ job.id) ⊎ (r.status ≢ running))
      (λ r. r.id == job.id) change rows (λ r e h. inr (stops r)) (λ r e h. inl (ground (arith, e)))
      (All-any rows)

succeed-IsReleased :
    (now : ℕ) (job : Job) (run_id : Option ℕ) (q : Queue)
    → IsReleased job (succeed now job.id run_id q)
unfolding succeed
succeed-IsReleased now job run_id q = released job _ q.rows (λ r e. cc)

defer-IsReleased :
    (job : Job) (until : ℕ) (reason : String) (q : Queue)
    → IsReleased job (defer job until reason q)
unfolding defer
defer-IsReleased job until reason q = released job _ q.rows (λ r e. cc)

fail-IsReleased :
    (now : ℕ) (job : Job) (run_id : Option ℕ) (error : String) (q : Queue)
    → IsReleased job (fail now job run_id error q)
unfolding fail
fail-IsReleased now job run_id error q = elim (Bool-cases (ltb job.attempts job.max_attempts)) [
  | inl again ↦ rw again (released job _ q.rows (λ r e. cc))
  | inr over ↦ rw over (released job _ q.rows (λ r e. cc))
]

abbrev pub IsClosed : RunRow → Type 0
IsClosed r = r.status ≢ run_open

-- Closed, or the run of this job.
abbrev MayClose : ℕ → RunRow → Type 0
MayClose run_id r = IsClosed r ⊎ (r.id ≡ run_id)

finish_run-IsClosed :
    (run_id : ℕ) (status : RunStatus) (w : Office)
    → status ≢ run_open
    → All (MayClose run_id) w.runs
    → All IsClosed (finish_run run_id status w).runs
finish_run-IsClosed run_id status w ends h =
    update_where-All (MayClose run_id) IsClosed (λ r. r.id == run_id)
      (λ r. record r { status = status }) w.runs (λ r e k. ends)
      (λ r e k. elim k [ inl closed ↦ closed | inr same ↦ absurd (ground (arith, e, same)) ]) h

-- The job is no longer running, its run is closed, and memory is as before unless it succeeded.
pub record EndsWell (job : Job) (before : Memory) (e : Ended) (w : Office) : Type 0 where
  pub stopped : IsReleased job w.db.queue
  pub closed : All IsClosed w.runs
  pub kept : (e ≡ job_succeeded) ⊎ (w.db.memory ≡ before)

module _ (now : ℕ) (job : Job) (run_id : ℕ) (w : Office) (runs : All (MayClose run_id) w.runs) where
  give_up-EndsWell :
      (error : String)
      → EndsWell job w.db.memory
          (give_up now job run_id error w).0
          (give_up now job run_id error w).1
  give_up-EndsWell error = record {
    stopped = fail-IsReleased now job (some run_id) error w.db.queue;
    closed = finish_run-IsClosed run_id run_failed w (λ e. cc) runs;
    kept = inr refl;
  }

  put_back-EndsWell :
      (ended : Ended) (until : ℕ) (reason : String)
      → EndsWell job w.db.memory ended (put_back ended job run_id until reason w).1
  put_back-EndsWell ended until reason = record {
    stopped = defer-IsReleased job until reason w.db.queue;
    closed = finish_run-IsClosed run_id run_failed w (λ e. cc) runs;
    kept = inr refl;
  }

  commit-EndsWell :
      (result : Option Db)
      → EndsWell job w.db.memory
          (commit now job run_id result w).0
          (commit now job run_id result w).1
  commit-EndsWell none = give_up-EndsWell "persist"
  commit-EndsWell (some db) = record {
    stopped = succeed-IsReleased now job (some run_id) db.queue;
    closed = finish_run-IsClosed run_id run_succeeded w (λ e. cc) runs;
    kept = inl refl;
  }

  conclude-EndsWell :
      (s : Settings) (work : Work)
      → EndsWell job w.db.memory
          (conclude s now job run_id work w).0
          (conclude s now job run_id work w).1
  conclude-EndsWell s (persists persist) = commit-EndsWell (persist w.db)
  conclude-EndsWell s budget_exhausted =
      put_back-EndsWell deferred_budget (or_default (budget_reopens s 1 now w) (now + 3600))
        "budget"
  conclude-EndsWell s search_unavailable =
      put_back-EndsWell deferred_search_unavailable (now + search_retry) "search"
  conclude-EndsWell s (raises error) = give_up-EndsWell error

start_unless-EndsWell :
    (s : Settings) (role : Role) (now : ℕ) (job : Job) (wait : Option ℕ) (w : Office)
    → All IsClosed w.runs
    → EndsWell job w.db.memory
        (start_unless s role now job wait w).0
        (start_unless s role now job wait w).1
start_unless-EndsWell s role now job (some reopens) w h = record {
  stopped = defer-IsReleased job reopens "waiting for the daily call budget" w.db.queue;
  closed = h;
  kept = inr refl;
}
start_unless-EndsWell s role now job none w h =
    let (run_id, started) = start_run job w in
    let (work, calls) = role.prepare job started in
    conclude-EndsWell now job w.next_run (record started { calls = started.calls ++ calls })
      (All-append (MayClose w.next_run) w.runs _ (All-map w.runs (λ r k. inl k) h) (inr refl, tt)) s
      work

-- Whatever its role does, a claimed job does not stay running: it succeeds, waits again or fails; its
-- run does not stay open, where none was open before; and memory is as before unless the job
-- succeeded.
pub run_claimed_job-EndsWell :
    (s : Settings) (role : Role) (now : ℕ) (job : Job) (w : Office)
    → All IsClosed w.runs
    → EndsWell job w.db.memory
        (run_claimed_job s role now job w).0
        (run_claimed_job s role now job w).1
unfolding run_claimed_job
run_claimed_job-EndsWell s role now job w h =
    start_unless-EndsWell s role now job (waits_until s role now job w) w h
