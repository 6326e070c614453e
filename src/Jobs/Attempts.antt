-- ===== src/Jobs/Attempts.antt =====
-- Attempts are bounded (src/collegium/jobs.py): what holds of the jobs table after any sequence of
-- its operations, and what happens to a job that always fails.
use collegium.Prelude.{
  ℕ, ◌≤◌, ◌<◌, ◌≡◌, refl, String, Bool, true, ◌⊎◌, Option, some, List, [], ◌∷◌, arith, All,
  All-append, All-update_where, ◌==◌, ◌≢◌, subst, Unique, Below, Below-suc, All-update_key,
  update_where-Unique, update_where-Below, append-Unique,
}
use collegium.Jobs.{
  Kind, pending, running, Payload, JobRow, Job, Queue, enqueue, claim, succeed, fail, defer, is_due,
  start_attempt, update_job, mark_succeeded, mark_succeeded,
}
use collegium.Jobs.Claiming.{Took, Claimed, claim-Claimed}

-- A row's attempts stay within its limit, a pending one has an attempt left, and a running one has
-- used one.
pub record IsBounded (r : JobRow) : Type 0 where
  pub positive : 1 ≤ r.max_attempts
  pub bounded : r.attempts ≤ r.max_attempts
  pub room : r.status ≡ pending → r.attempts < r.max_attempts
  pub started : r.status ≡ running → 1 ≤ r.attempts

pub record IsSound (q : Queue) : Type 0 where
  pub bounded : All IsBounded q.rows
  pub unique : Unique (λ r. r.id) q.rows
  pub fresh : Below (λ r. r.id) q.next_id q.rows

-- The worker still holds the job that it claimed: nobody took it over since.
abbrev pub IsHeld : Job → JobRow → Type 0
IsHeld job r =
    (r.id ≢ job.id)
    ⊎ ((r.status ≡ running) × (r.attempts ≡ job.attempts) × (r.max_attempts ≡ job.max_attempts))

-- One statement on the jobs table.
pub data Step (q q' : Queue) : Type 0 where
  enqueued :
      (now : ℕ) (kind : Kind) (payload : Payload) (parent : Option ℕ) (priority : ℕ)
      → q' ≡ (enqueue now kind payload parent priority q).1
      → Step q q'
  claimed :
      (now : ℕ) (kinds : Option (List Kind)) (locked : ℕ → Bool) (job : Job)
      → claim now kinds locked q ≡ some (job, q')
      → Step q q'
  succeeded_job :
      (now job_id : ℕ) (run_id : Option ℕ) → q' ≡ succeed now job_id run_id q → Step q q'
  failed_job :
      (now : ℕ) (job : Job) (run_id : Option ℕ) (error : String)
      → All (IsHeld job) q.rows
      → q' ≡ fail now job run_id error q
      → Step q q'
  deferred :
      (job : Job) (until : ℕ) (reason : String)
      → All (IsHeld job) q.rows
      → q' ≡ defer job until reason q
      → Step q q'

pub data Reach (s : Queue) : Queue → Type 0 where
  here : Reach s s
  next : {t u : Queue} → Reach s t → Step t u → Reach s u

start_attempt-IsBounded :
    (now : ℕ) (kinds : Option (List Kind)) (r : JobRow)
    → is_due now kinds r ≡ true
    → IsBounded r
    → IsBounded (start_attempt now r)
unfolding is_due
start_attempt-IsBounded now kinds r due h = ground arith

-- An UPDATE by id that keeps the ids and every row's bounds keeps the table sound.
update_job-IsSound :
    (job_id : ℕ) (change : JobRow → JobRow) (q : Queue)
    → ((r : JobRow) → (change r).id ≡ r.id)
    → All IsBounded (update_job job_id change q).rows
    → IsSound q
    → IsSound (update_job job_id change q)
update_job-IsSound job_id change q same kept h = record {
  bounded = kept;
  unique = update_where-Unique (λ r. r.id) (λ r. r.id == job_id) change same q.rows h.unique;
  fresh = update_where-Below (λ r. r.id) (λ r. r.id == job_id) change same q.next_id q.rows h.fresh;
}

enqueue-IsSound :
    (now : ℕ) (kind : Kind) (payload : Payload) (parent : Option ℕ) (priority : ℕ) (q : Queue)
    → IsSound q
    → IsSound (enqueue now kind payload parent priority q).1
unfolding enqueue
enqueue-IsSound now kind payload parent priority q h = record {
  bounded = All-append IsBounded q.rows _ h.bounded (ground arith, tt);
  unique = append-Unique (λ r. r.id) q.next_id _ q.rows refl h.fresh h.unique;
  fresh = All-append _ q.rows _ (Below-suc (λ r. r.id) q.next_id q.rows h.fresh) (omega arith, tt);
}

Took-IsSound :
    {now : ℕ} {kinds : Option (List Kind)} {locked : ℕ → Bool} {q q' : Queue} {job : Job}
    → Took now kinds locked q job q'
    → IsSound q
    → IsSound q'
Took-IsSound {now} {kinds} {locked} {q} t h = rw t.updated (
    update_job-IsSound t.row.id (start_attempt now) q (λ r. refl)
      (All-update_key (λ r. r.id) IsBounded (start_attempt now) t.row q.rows t.listed h.unique
        (start_attempt-IsBounded now kinds t.row (ground (arith, t.eligible))) h.bounded)
      h)

claim-IsSound :
    (now : ℕ) (kinds : Option (List Kind)) (locked : ℕ → Bool) {job : Job} {q q' : Queue}
    → claim now kinds locked q ≡ some (job, q')
    → IsSound q
    → IsSound q'
claim-IsSound now kinds locked {job} {q} {q'} e h =
    Took-IsSound (subst (Claimed now kinds locked q) e (claim-Claimed now kinds locked q)) h

succeed-IsSound :
    (now job_id : ℕ) (run_id : Option ℕ) (q : Queue)
    → IsSound q
    → IsSound (succeed now job_id run_id q)
unfolding succeed
succeed-IsSound now job_id run_id q h =
    update_job-IsSound job_id (mark_succeeded now run_id) q (λ r. refl)
      (All-update_where IsBounded (λ r. r.id == job_id) (mark_succeeded now run_id) q.rows
        (λ r e b. ground arith) h.bounded)
      h

fail-rows :
    (now : ℕ) (job : Job) (run_id : Option ℕ) (error : String) (n : ℕ) (rows : List JobRow)
    → All (IsHeld job) rows
    → All IsBounded rows
    → All IsBounded (fail now job run_id error (record { next_id = n; rows = rows })).rows
unfolding fail
fail-rows now job run_id error n [] k h = tt
fail-rows now job run_id error n (r ∷ rows) k h =
    (ground arith, fail-rows now job run_id error n rows k.1 h.1)

fail-IsSound :
    (now : ℕ) (job : Job) (run_id : Option ℕ) (error : String) (q : Queue)
    → All (IsHeld job) q.rows
    → IsSound q
    → IsSound (fail now job run_id error q)
unfolding fail
fail-IsSound now job run_id error q k h =
    update_job-IsSound job.id _ q (λ r. ground arith)
      (fail-rows now job run_id error q.next_id q.rows k h.bounded) h

defer-rows :
    (job : Job) (until : ℕ) (reason : String) (n : ℕ) (rows : List JobRow)
    → All (IsHeld job) rows
    → All IsBounded rows
    → All IsBounded (defer job until reason (record { next_id = n; rows = rows })).rows
unfolding defer
defer-rows job until reason n [] k h = tt
defer-rows job until reason n (r ∷ rows) k h =
    (ground arith, defer-rows job until reason n rows k.1 h.1)

defer-IsSound :
    (job : Job) (until : ℕ) (reason : String) (q : Queue)
    → All (IsHeld job) q.rows
    → IsSound q
    → IsSound (defer job until reason q)
unfolding defer
defer-IsSound job until reason q k h =
    update_job-IsSound job.id _ q (λ r. refl)
      (defer-rows job until reason q.next_id q.rows k h.bounded) h

Step-IsSound : {q q' : Queue} → Step q q' → IsSound q → IsSound q'
Step-IsSound {q} (enqueued now kind payload parent priority e) h =
    rw e (enqueue-IsSound now kind payload parent priority q h)
Step-IsSound (claimed now kinds locked job e) h = claim-IsSound now kinds locked e h
Step-IsSound {q} (succeeded_job now job_id run_id e) h =
    rw e (succeed-IsSound now job_id run_id q h)
Step-IsSound {q} (failed_job now job run_id error k e) h =
    rw e (fail-IsSound now job run_id error q k h)
Step-IsSound {q} (deferred job until reason k e) h = rw e (defer-IsSound job until reason q k h)

abbrev pub no_jobs : Queue
no_jobs = record { next_id = 0; rows = [] }

-- After any sequence of enqueues, claims, successes, and failures and deferrals by the worker that
-- still holds the job, from an empty table: the ids are unique, no job has used more attempts than
-- its limit, every pending job has one left, and every running job has used one.
pub Reach-IsSound : {q : Queue} → Reach no_jobs q → IsSound q
Reach-IsSound here = record { bounded = tt; unique = tt; fresh = tt }
Reach-IsSound (next r step) = Step-IsSound step (Reach-IsSound r)
