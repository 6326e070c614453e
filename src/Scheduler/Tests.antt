-- ===== src/Scheduler/Tests.antt =====
-- The scheduler on small examples.
use collegium.Prelude.{
  ℕ, ◌≤◌, subst, sym, ◌*◌, ◌+◌, ◌/◌, ◌%◌, ◌≡◌, refl, true, none, some, [], ◌∷◌, Memᴰ, All, arith,
}
use collegium.Jobs.{strategize, running, succeeded, enqueue, Queue, JobRow, new_row}
use collegium.Jobs.Attempts.{no_jobs}
use collegium.Memory.{Domain, active, Memory, no_memory, active_domains}
use collegium.Hours.{Local, WorkingHours, is_open, is_open_at, start_of_workday}
use collegium.Scheduler.{tick, plan_domains, plan_payload}
use collegium.Scheduler.Daily.{Planned, tick-plans, IsContinued, tick-again}
use collegium.Scheduler.Blocked.{NoNewPlan, tick-blocked}

-- Days of a hundred seconds, so that a day's tick is easy to read.
abbrev short_local : ℕ → Local
short_local now = record { day = now / 100; time = now % 100 }

abbrev office : WorkingHours
office = record {
  start = 10;
  end = 90;
  days = 0 ∷ 1 ∷ 2 ∷ [];
  tz = record { local_of = short_local; instant_of = λ t. t.day * 100 + t.time };
}

abbrev agents : Domain
agents = record {
  id = 7;
  slug = "agents";
  name = "Agents";
  status = active;
  discovery_sources = [];
}

abbrev one_domain : Memory
one_domain = record no_memory { domains = agents ∷ [] }

-- Day 1 is a Monday; it is half past by its clock.
open_monday : is_open office 150 ≡ true
unfolding is_open is_open_at
open_monday = refl

tick-plans_example :
    All
      (λ d.
        Planned
          (start_of_workday office 150)
          151
          d.id
          no_jobs.rows
          (tick office 150 151 one_domain no_jobs).1.rows)
      (active_domains one_domain)
tick-plans_example = tick-plans office 150 151 one_domain no_jobs open_monday

-- The planning of day 1, which is over by the afternoon.
abbrev planning : JobRow
planning = new_row 151 strategize (plan_payload 7) none 3 0

abbrev by_afternoon : Queue
by_afternoon = record {
  next_id = 1;
  rows = record planning { status = succeeded; attempts = 1; finished_at = some 160 } ∷ [];
}

planned_once : (tick office 150 151 one_domain no_jobs).1.rows ≡ planning ∷ []
unfolding tick plan_domains is_open is_open_at enqueue
planned_once = refl

one-IsContinued : IsContinued (planning ∷ []) by_afternoon.rows
one-IsContinued r (Memᴰ.head e) = rw e (_, Memᴰ.head refl, refl, refl, refl)
one-IsContinued r (Memᴰ.tail m) = elim m [ ]

workday_start : start_of_workday office 150 ≤ 151
workday_start = ground arith

tick-again_example :
    NoNewPlan 7 by_afternoon.rows (tick office 180 181 one_domain by_afternoon).1.rows
tick-again_example =
    tick-again office 150 151 180 181 one_domain one_domain no_jobs by_afternoon agents open_monday
      (Memᴰ.head refl) tt workday_start refl
      (subst (λ rows. IsContinued rows by_afternoon.rows) (sym planned_once) one-IsContinued)

-- Planning whose third attempt was cut off on day 1.
abbrev cut_off : JobRow
cut_off = record (new_row 120 strategize (plan_payload 7) none 3 0) {
  status = running;
  attempts = 3;
  started_at = some 130;
}

abbrev stuck_queue : Queue
stuck_queue = record { next_id = 1; rows = cut_off ∷ [] }

-- Eight days later it is open, and nothing is planned.
tick-blocked_example :
    NoNewPlan 7 (cut_off ∷ []) (tick office 950 950 one_domain stuck_queue).1.rows
tick-blocked_example =
    tick-blocked office 950 950 7 one_domain stuck_queue cut_off
      (record { under_way = refl; spent = omega arith }) refl (Memᴰ.head refl)
