-- ===== src/Scheduler.antt =====
-- The scheduler (src/collegium/scheduler.py). `now` is the scheduler's clock and `at` the database's
-- in the same transaction.
pub mod Daily
pub mod Blocked
mod Tests
use collegium.Prelude.{
  ℕ, suc, ◌+◌, Bool, true, false, ◌&&◌, ◌||◌, Option, none, some, List, [], ◌∷◌, leb, ◌==◌,
  if◌then◌else◌, any,
}
use collegium.Jobs.{strategize, Payload, no_payload, JobRow, Queue, is_live, same_kind, enqueue}
use collegium.Memory.{Domain, Memory, active_domains}
use collegium.Hours.{WorkingHours, is_open, start_of_workday}

-- payload->>'domain_id' = id, which is not true of a NULL.
abbrev pub names_domain : ℕ → Option ℕ → Bool
names_domain domain_id none = false
names_domain domain_id (some d) = d == domain_id

-- The WHERE of the SELECT: planning that is queued or under way, or that was asked for today.
unfoldable pub is_plan : ℕ → ℕ → JobRow → Bool
is_plan since domain_id r =
    same_kind r.kind strategize
    && (names_domain domain_id r.payload.domain_id && (is_live r.status || leb since r.created_at))

abbrev pub planned_today : ℕ → ℕ → Queue → Bool
planned_today since domain_id q = any (is_plan since domain_id) q.rows

abbrev pub plan_payload : ℕ → Payload
plan_payload domain_id = record no_payload { domain_id = some domain_id }

-- The body of the loop: the number queued and the queue after it.
abbrev pub plan_domain : ℕ → ℕ → Domain → ℕ × Queue → ℕ × Queue
plan_domain since at d (n, q) =
    if planned_today since d.id q
    then (n, q)
    else (n + 1, (enqueue at strategize (plan_payload d.id) none 3 q).1)

unfoldable pub plan_domains : ℕ → ℕ → List Domain → ℕ × Queue → ℕ × Queue
plan_domains since at [] acc = acc
plan_domains since at (d ∷ domains) acc = plan_domains since at domains (plan_domain since at d acc)

unfoldable pub tick : WorkingHours → ℕ → ℕ → Memory → Queue → ℕ × Queue
unfolding plan_domains
tick h now at m q =
    if is_open h now
    then plan_domains (start_of_workday h now) at (active_domains m) (0, q)
    else (0, q)
