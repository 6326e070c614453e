-- ===== src/Scheduler/Blocked.antt =====
-- A planning job whose worker died on its last attempt (`tick` in src/collegium/scheduler.py with
-- `claim` in src/collegium/jobs.py).
use collegium.Prelude.{
  mem-append_left, ℕ, ◌≤◌, ◌≡◌, refl, Bool, true, false, ◌&&◌, ◌⊎◌, List, [], ◌∷◌, Memᴰ, arith,
  Bool-cases, inl, inr, All, All-append, any, ◌==◌,
}
use collegium.Jobs.{strategize, is_live, JobRow, Queue, enqueue, same_kind}
use collegium.Jobs.Exhausted.{IsExhausted}
use collegium.Memory.{Domain, Memory, active_domains}
use collegium.Hours.{WorkingHours, is_open, start_of_workday}
use collegium.Scheduler.{names_domain, is_plan, planned_today, plan_domain, plan_domains, tick}

-- Planning work for this domain, of whatever status.
abbrev pub plans_for : ℕ → JobRow → Bool
plans_for domain_id r = same_kind r.kind strategize && names_domain domain_id r.payload.domain_id

any_of_mem :
    {A : Type 0} (p : A → Bool) (a : A) (xs : List A) → Memᴰ a xs → p a ≡ true → any p xs ≡ true
any_of_mem p a [] m e = elim m [ ]
any_of_mem p a (x ∷ xs) (Memᴰ.head q) e = ground (arith, q)
any_of_mem p a (x ∷ xs) (Memᴰ.tail m) e = ground (arith, any_of_mem p a xs m e)

-- Every planning job for the domain is one that the old rows had.
abbrev pub NoNewPlan : ℕ → List JobRow → List JobRow → Type 0
NoNewPlan domain_id old rows = All (λ s. Memᴰ s old ⊎ (plans_for domain_id s ≡ false)) rows

-- The planning of a day for a domain: it is queued or under way, or was asked for since then.
abbrev pub IsPlanOf : ℕ → ℕ → JobRow → Type 0
IsPlanOf since domain_id r =
    (plans_for domain_id r ≡ true) × ((is_live r.status ≡ true) ⊎ (since ≤ r.created_at))

pub IsPlanOf-is_plan :
    (since domain_id e : ℕ) (r : JobRow)
    → IsPlanOf since domain_id r
    → (e == domain_id) ≡ true
    → is_plan since e r ≡ true
unfolding is_plan
IsPlanOf-is_plan since domain_id e r (for_it, inl live) same = ground arith
IsPlanOf-is_plan since domain_id e r (for_it, inr fresh) same = ground arith

module _ (since at domain_id : ℕ) (r : JobRow) (plan : IsPlanOf since domain_id r) where
  -- The domain's turn is skipped, so what is queued is for another one.
  queued_for_other :
      (e : ℕ) (q : Queue)
      → Memᴰ r q.rows
      → planned_today since e q ≡ false
      → (e == domain_id) ≡ false
  queued_for_other e q m todo = elim (Bool-cases (e == domain_id)) [
    | inr other ↦ other
    | inl same ↦ absurd (
        cc (
          any_of_mem (is_plan since e) r q.rows m (IsPlanOf-is_plan since domain_id e r plan same)))
  ]

  module _ (old : List JobRow) where
    abbrev IsBlocked : Queue → Type 0
    IsBlocked q = Memᴰ r q.rows × NoNewPlan domain_id old q.rows

    plan_domain-IsBlocked :
        (d : Domain) (acc : ℕ × Queue) → IsBlocked acc.1 → IsBlocked (plan_domain since at d acc).1
    unfolding enqueue
    plan_domain-IsBlocked d (n, q) (m, h) = elim (Bool-cases (planned_today since d.id q)) [
      | inl done ↦ rw done (m, h)
      | inr todo ↦ rw todo (
        mem-append_left r q.rows _ m,
        All-append _ q.rows _ h (inr (queued_for_other d.id q m todo), tt),
      )
    ]

    plan_domains-IsBlocked :
        (domains : List Domain) (acc : ℕ × Queue)
        → IsBlocked acc.1
        → IsBlocked (plan_domains since at domains acc).1
    unfolding plan_domains
    plan_domains-IsBlocked [] acc h = h
    plan_domains-IsBlocked (d ∷ domains) acc h =
        plan_domains-IsBlocked domains (plan_domain since at d acc) (plan_domain-IsBlocked d acc h)

NoNewPlan-refl :
    (domain_id : ℕ) (old rows : List JobRow)
    → ((s : JobRow) → Memᴰ s rows → Memᴰ s old)
    → NoNewPlan domain_id old rows
NoNewPlan-refl domain_id old [] f = tt
NoNewPlan-refl domain_id old (r ∷ rows) f =
    (inl (f r (Memᴰ.head refl)), NoNewPlan-refl domain_id old rows (λ s m. f s (Memᴰ.tail m)))

-- Where the planning of the day for a domain stands in the queue, a tick queues no more for it.
pub tick-adds_none :
    (h : WorkingHours) (now at domain_id : ℕ) (m : Memory) (q : Queue) (r : JobRow)
    → IsPlanOf (start_of_workday h now) domain_id r
    → Memᴰ r q.rows
    → NoNewPlan domain_id q.rows (tick h now at m q).1.rows
unfolding tick
tick-adds_none h now at domain_id m q r plan listed =
    let start = NoNewPlan-refl domain_id q.rows q.rows (λ s k. k) in
    elim (Bool-cases (is_open h now)) [
      | inr closed ↦ rw closed start
      | inl open_now ↦
          rw open_now
            (plan_domains-IsBlocked (start_of_workday h now) at domain_id r plan q.rows
              (active_domains m) (0, q) (listed, start)).1
    ]

-- While a planning job of a domain stands in the queue as running its last attempt, no tick, on
-- any day, queues planning for that domain: every planning job for it is one that was there before.
pub tick-blocked :
    (h : WorkingHours) (now at domain_id : ℕ) (m : Memory) (q : Queue) (r : JobRow)
    → IsExhausted r
    → plans_for domain_id r ≡ true
    → Memᴰ r q.rows
    → NoNewPlan domain_id q.rows (tick h now at m q).1.rows
tick-blocked h now at domain_id m q r stuck for_it listed =
    let live : is_live r.status ≡ true = ground (arith, stuck.under_way) in
    tick-adds_none h now at domain_id m q r ((for_it, inl live)) listed
