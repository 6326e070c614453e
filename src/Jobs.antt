-- ===== src/Jobs.antt =====
-- The work queue (src/collegium/jobs.py): the jobs table, and one function for each statement that
-- reads or writes it. A `JobRow` is a row of the table, a `Job` the dataclass that `claim` returns.
-- Times are seconds, and `now` is the transaction's time.
mod Kinds
pub mod Claiming
pub mod Attempts
pub mod Exhausted
mod Tests
pub use Kinds.*
use collegium.Prelude.{
  ℕ, zero, suc, ◌+◌, ◌-◌, ◌*◌, ◌^◌, String, Bool, true, false, not, ◌&&◌, ◌||◌, Option, none, some,
  List, [], ◌∷◌, ◌++◌, ltb, leb, ◌==◌, if◌then◌else◌, any, filter, least, update_where,
}

-- timedelta(minutes=2)
abbrev pub retry_base : ℕ
retry_base = 120

-- timedelta(hours=2)
abbrev pub stale_after : ℕ
stale_after = 7200

pub record JobRow : Type 0 where
  pub id : ℕ
  pub kind : Kind
  pub payload : Payload
  pub status : Status
  pub priority : ℕ
  pub attempts : ℕ
  pub max_attempts : ℕ
  pub run_after : ℕ
  pub parent_job_id : Option ℕ
  pub run_id : Option ℕ
  pub last_error : Option String
  pub created_at : ℕ
  pub started_at : Option ℕ
  pub finished_at : Option ℕ

-- The table, with the next id that is not yet taken.
pub record Queue : Type 0 where
  pub next_id : ℕ
  pub rows : List JobRow

-- A snapshot of a row, taken when it was claimed.
pub record Job : Type 0 where
  pub id : ℕ
  pub kind : Kind
  pub payload : Payload
  pub attempts : ℕ
  pub max_attempts : ℕ

abbrev pub is_pending : Status → Bool
is_pending pending = true
is_pending _ = false

abbrev pub is_running : Status → Bool
is_running running = true
is_running _ = false

-- status IN ('pending', 'running')
abbrev pub is_live : Status → Bool
is_live s = is_pending s || is_running s

abbrev pub same_kind : Kind → Kind → Bool
same_kind k l = kind_code k == kind_code l

-- The table's defaults: status 'pending', attempts 0, max_attempts 3, run_after now().
abbrev pub new_row : ℕ → Kind → Payload → Option ℕ → ℕ → ℕ → JobRow
new_row now kind payload parent priority id = record {
  id = id;
  kind = kind;
  payload = payload;
  status = pending;
  priority = priority;
  attempts = 0;
  max_attempts = 3;
  run_after = now;
  parent_job_id = parent;
  run_id = none;
  last_error = none;
  created_at = now;
  started_at = none;
  finished_at = none;
}

unfoldable pub enqueue : ℕ → Kind → Payload → Option ℕ → ℕ → Queue → ℕ × Queue
enqueue now kind payload parent priority q = (
  q.next_id,
  record {
    next_id = suc q.next_id;
    rows = q.rows ++ new_row now kind payload parent priority q.next_id ∷ [];
  },
)

-- `started_at < now() - stale_after`, which is not true of a NULL.
abbrev pub is_stale : ℕ → Option ℕ → Bool
is_stale now none = false
is_stale now (some started) = ltb (started + stale_after) now

-- `%s::text[] IS NULL OR kind = ANY(%s)`
abbrev pub wanted : Option (List Kind) → Kind → Bool
wanted none kind = true
wanted (some kinds) kind = any (same_kind kind) kinds

-- The WHERE of the inner SELECT.
unfoldable pub is_due : ℕ → Option (List Kind) → JobRow → Bool
is_due now kinds r =
    ((is_pending r.status && leb r.run_after now)
      || (is_running r.status && (is_stale now r.started_at && ltb r.attempts r.max_attempts)))
    && wanted kinds r.kind

-- ORDER BY priority, run_after
unfoldable pub before : JobRow → JobRow → Bool
before r s = ltb r.priority s.priority || (r.priority == s.priority && ltb r.run_after s.run_after)

abbrev pub snapshot : JobRow → Job
snapshot r = record {
  id = r.id;
  kind = r.kind;
  payload = r.payload;
  attempts = r.attempts;
  max_attempts = r.max_attempts;
}

abbrev pub start_attempt : ℕ → JobRow → JobRow
start_attempt now r = record r {
  status = running;
  attempts = r.attempts + 1;
  started_at = some now;
}

-- `locked` tells the rows that another worker's transaction holds (FOR UPDATE SKIP LOCKED).
abbrev pub is_eligible : ℕ → Option (List Kind) → (ℕ → Bool) → JobRow → Bool
is_eligible now kinds locked r = is_due now kinds r && not (locked r.id)

unfoldable pub candidates : ℕ → Option (List Kind) → (ℕ → Bool) → Queue → List JobRow
candidates now kinds locked q = filter (is_eligible now kinds locked) q.rows

abbrev pub take_row : ℕ → Queue → Option JobRow → Option (Job × Queue)
take_row now q none = none
take_row now q (some r) = some (
  snapshot (start_attempt now r),
  record q { rows = update_where (λ s. s.id == r.id) (start_attempt now) q.rows },
)

unfoldable pub claim : ℕ → Option (List Kind) → (ℕ → Bool) → Queue → Option (Job × Queue)
claim now kinds locked q = take_row now q (least before (candidates now kinds locked q))

abbrev pub update_job : ℕ → (JobRow → JobRow) → Queue → Queue
update_job job_id change q = record q { rows = update_where (λ r. r.id == job_id) change q.rows }

abbrev pub mark_succeeded : ℕ → Option ℕ → JobRow → JobRow
mark_succeeded now run_id r = record r {
  status = succeeded;
  run_id = run_id;
  finished_at = some now;
  last_error = none;
}

unfoldable pub succeed : ℕ → ℕ → Option ℕ → Queue → Queue
succeed now job_id run_id = update_job job_id (mark_succeeded now run_id)

-- `RETRY_BASE * 2 ** (attempts - 1)`; with no attempt yet, Python's 2 ** -1 halves the base.
unfoldable pub backoff : ℕ → ℕ
backoff zero = 60
backoff (suc n) = retry_base * 2 ^ n

unfoldable pub fail : ℕ → Job → Option ℕ → String → Queue → Queue
unfolding backoff
fail now job run_id error = update_job job.id (
    if ltb job.attempts job.max_attempts
    then (λ r. record r {
      status = pending;
      run_id = run_id;
      last_error = some error;
      run_after = now + backoff job.attempts;
    })
    else (λ r. record r {
      status = failed;
      run_id = run_id;
      last_error = some error;
      finished_at = some now;
    }))

-- `greatest(attempts - 1, 0)` is the subtraction of ℕ.
unfoldable pub defer : Job → ℕ → String → Queue → Queue
defer job until reason = update_job job.id (λ r. record r {
  status = pending;
  attempts = r.attempts - 1;
  run_after = until;
  last_error = some reason;
})
