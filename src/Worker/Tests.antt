-- ===== src/Worker/Tests.antt =====
-- The worker on a small example: a role that raises, and a claim at night.
use collegium.Prelude.{ℕ, ◌≡◌, refl, true, false, Bool, none, some, [], ◌∷◌, least}
use collegium.Jobs.{
  ask, scout, no_payload, Job, Queue, enqueue, new_row, snapshot, start_attempt, claim, candidates,
  is_due, before,
}
use collegium.Jobs.Attempts.{no_jobs}
use collegium.Memory.{no_memory}
use collegium.Hours.{WorkingHours, is_open, is_open_at}
use collegium.Worker.{Office, Settings, Role, raises, run_claimed_job, kinds_at, budget_reopens}
use collegium.Worker.Ending.{EndsWell, run_claimed_job-EndsWell}
use collegium.Worker.Calling.{IsForOwner, closed-IsForOwner}

abbrev two_jobs : Queue
two_jobs = (enqueue 1100 ask no_payload none 1 (enqueue 1000 scout no_payload none 1 no_jobs).1).1

abbrev office : Office
office = record {
  db = record { memory = no_memory; queue = two_jobs };
  next_run = 1;
  runs = [];
  calls = [];
}

abbrev settings : Settings
settings = record { providers = []; daily_call_budget = 10; paid_first = false }

abbrev unlucky : Role
unlucky = record { searches_for = λ job. true; prepare = λ job w. (raises "it broke", []) }

abbrev asked : Job
asked = snapshot (start_attempt 2000 (new_row 1100 ask no_payload none 1 1))

run_claimed_job-EndsWell_example :
    EndsWell asked no_memory
      (run_claimed_job settings unlucky 2000 asked office).0
      (run_claimed_job settings unlucky 2000 asked office).1
run_claimed_job-EndsWell_example = run_claimed_job-EndsWell settings unlucky 2000 asked office tt

-- The budget of one call is spent by a call an hour ago, and reopens a day and a minute after it.
spent_budget :
    budget_reopens
      (record { providers = [] ∷ []; daily_call_budget = 1; paid_first = true })
      1
      100000
      (record office {
        calls = record { provider = []; requested_at = 96400; failed_call = false } ∷ [];
      })
    ≡ some 182860
unfolding budget_reopens least
spent_budget = refl

abbrev never : WorkingHours
never = record {
  start = 0;
  end = 0;
  days = [];
  tz = record { local_of = λ now. record { day = 1; time = now }; instant_of = λ t. t.time };
}

abbrev unlocked : ℕ → Bool
unlocked id = false

closed_then : is_open never 2000 ≡ false
unfolding is_open is_open_at
closed_then = refl

-- The scout's job is older, and waits.
question_first :
    claim 2000 (kinds_at never 2000) unlocked two_jobs
    ≡ some (
      asked,
      record {
        next_id = 2;
        rows =
            new_row 1000 scout no_payload none 1 0
            ∷ start_attempt 2000 (new_row 1100 ask no_payload none 1 1)
            ∷ [];
      },
    )
unfolding claim candidates is_due before least is_open is_open_at enqueue
question_first = refl

closed-IsForOwner_example : IsForOwner asked.kind
closed-IsForOwner_example =
    closed-IsForOwner never 2000 2000 unlocked two_jobs
      (record {
        next_id = 2;
        rows =
            new_row 1000 scout no_payload none 1 0
            ∷ start_attempt 2000 (new_row 1100 ask no_payload none 1 1)
            ∷ [];
      })
      asked closed_then question_first
