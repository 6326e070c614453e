-- ===== src/Scheduler/Daily.antt =====
-- One planning job a day for each active domain (`tick` in src/collegium/scheduler.py).
use collegium.Prelude.{
  mem-append_left, mem-append_last, All-mems, ℕ, ◌≤◌, ◌≡◌, ◌∙◌, refl, sym, Bool, true, false, ◌||◌,
  none, List, [], ◌∷◌, ◌++◌, arith, Bool-cases, inl, inr, All, All-mem, any, Memᴰ,
}
use collegium.Jobs.{strategize, JobRow, Queue, new_row, is_live, enqueue}
use collegium.Memory.{Domain, Memory, active_domains}
use collegium.Hours.{WorkingHours, is_open, start_of_workday}
use collegium.Scheduler.{is_plan, planned_today, plan_payload, plan_domain, plan_domains, tick}
use collegium.Scheduler.Blocked.{plans_for, IsPlanOf, IsPlanOf-is_plan, NoNewPlan, tick-adds_none}

any-append :
    {A : Type 0} (p : A → Bool) (xs ys : List A) → any p (xs ++ ys) ≡ (any p xs || any p ys)
any-append p [] ys = refl
any-append p (x ∷ xs) ys = ground (arith, any-append p xs ys)

any-mem :
    {A : Type 0} (p : A → Bool) (xs : List A) → any p xs ≡ true → (a : A) × Memᴰ a xs × (p a ≡ true)
any-mem p [] e = absurd (cc e)
any-mem p (x ∷ xs) e = elim (Bool-cases (p x)) [
  | inl here ↦ (x, Memᴰ.head refl, here)
  | inr other ↦
      let (a, listed, holds) = any-mem p xs (rw other at e) in (a, Memᴰ.tail listed, holds)
]

-- No row is the planning of the day for the domain.
abbrev pub Unplanned : ℕ → ℕ → List JobRow → Type 0
Unplanned since domain_id rows = All (λ r. ¬ IsPlanOf since domain_id r) rows

-- A planning job for the domain that was created at this time.
pub record NewPlan (at domain_id : ℕ) (rows : List JobRow) : Type 0 where
  pub row : JobRow
  pub listed : Memᴰ row rows
  pub plans : plans_for domain_id row ≡ true
  pub fresh : row.created_at ≡ at

is_plan-IsPlanOf :
    (since domain_id : ℕ) (r : JobRow)
    → is_plan since domain_id r ≡ true
    → IsPlanOf since domain_id r
unfolding is_plan
is_plan-IsPlanOf since domain_id r e = elim (Bool-cases (is_live r.status)) [
  | inl live ↦ (ground (arith, e), inl live)
  | inr over ↦ (ground (arith, e), inr (ground (arith, e, over)))
]

Unplanned-of :
    (since domain_id : ℕ) (rows : List JobRow)
    → any (is_plan since domain_id) rows ≡ false
    → Unplanned since domain_id rows
Unplanned-of since domain_id [] e = tt
Unplanned-of since domain_id (r ∷ rows) e =
    let rest : any (is_plan since domain_id) rows ≡ false = ground (arith, e) in
    (
      λ plan.
          let yes = IsPlanOf-is_plan since domain_id domain_id r plan (ground arith) in
          ground (arith, e, yes),
      Unplanned-of since domain_id rows rest,
    )

module _ (since at : ℕ) where
  plan_domain-plans :
      (d : Domain) (acc : ℕ × Queue)
      → planned_today since d.id (plan_domain since at d acc).1 ≡ true
  unfolding enqueue is_plan
  plan_domain-plans d (n, q) = elim (Bool-cases (planned_today since d.id q)) [
    | inl done ↦ rw done done
    | inr todo ↦ rw todo (rw any-append (ground arith))
  ]

  -- The row that a domain's turn adds is the planning of that domain.
  plan_domain-new :
      (e n : ℕ) (d : Domain) (q : Queue)
      → planned_today since e q ≡ false
      → planned_today since e (plan_domain since at d (n, q)).1 ≡ true
      → NewPlan at e (plan_domain since at d (n, q)).1.rows
  unfolding enqueue
  plan_domain-new e n d q todo added = elim (Bool-cases (planned_today since d.id q)) [
    | inl done ↦ absurd (cc (todo, rw done at added))
    | inr free ↦
        let row = new_row at strategize (plan_payload d.id) none 3 q.next_id in
        let after : any (is_plan since e) (q.rows ++ row ∷ []) ≡ true = rw free at added in
        let parts : (any (is_plan since e) q.rows || any (is_plan since e) (row ∷ [])) ≡ true =
          sym (any-append (is_plan since e) q.rows (row ∷ [])) ∙ after in
        let is_it : is_plan since e row ≡ true = ground (arith, parts, todo) in
        rw free (record {
          row = row;
          listed = mem-append_last row q.rows;
          plans = (is_plan-IsPlanOf since e row is_it).0;
          fresh = refl;
        })
  ]

  plan_domain-keeps_row :
      (r : JobRow) (d : Domain) (acc : ℕ × Queue)
      → Memᴰ r acc.1.rows
      → Memᴰ r (plan_domain since at d acc).1.rows
  unfolding enqueue
  plan_domain-keeps_row r d (n, q) m = elim (Bool-cases (planned_today since d.id q)) [
    | inl done ↦ rw done m
    | inr todo ↦ rw todo (mem-append_left r q.rows _ m)
  ]

  plan_domains-keeps_row :
      (r : JobRow) (domains : List Domain) (acc : ℕ × Queue)
      → Memᴰ r acc.1.rows
      → Memᴰ r (plan_domains since at domains acc).1.rows
  unfolding plan_domains
  plan_domains-keeps_row r [] acc m = m
  plan_domains-keeps_row r (d ∷ domains) acc m =
      plan_domains-keeps_row r domains (plan_domain since at d acc)
        (plan_domain-keeps_row r d acc m)

  plan_domains-new :
      (d : Domain) (domains : List Domain) (n : ℕ) (q : Queue)
      → Memᴰ d domains
      → planned_today since d.id q ≡ false
      → NewPlan at d.id (plan_domains since at domains (n, q)).1.rows
  unfolding plan_domains
  plan_domains-new d [] n q m todo = elim m [ ]
  plan_domains-new d (x ∷ domains) n q m todo =
      let later = plan_domains-new d domains in
      let next = plan_domain since at x (n, q) in
      elim (Bool-cases (planned_today since d.id next.1)) [
        | inl added ↦
            let p = plan_domain-new d.id n x q todo added in
            record {
              row = p.row;
              listed = plan_domains-keeps_row p.row domains next p.listed;
              plans = p.plans;
              fresh = p.fresh;
            }
        | inr missing ↦ elim m [
          | Memᴰ.head same ↦
              let planned = plan_domain-plans x (n, q) in absurd (cc (missing, planned, same))
          | Memᴰ.tail listed ↦ later next.0 next.1 listed missing
        ]
      ]

-- What a tick does for a domain. Where the planning of the day stood in the old queue, none is
-- added; where none did, a new planning job was created.
pub data Planned (since at domain_id : ℕ) (old new : List JobRow) : Type 0 where
  kept :
      (r : JobRow)
      → Memᴰ r old
      → IsPlanOf since domain_id r
      → NoNewPlan domain_id old new
      → Planned since at domain_id old new
  queued :
      Unplanned since domain_id old → NewPlan at domain_id new → Planned since at domain_id old new

tick-Planned :
    (h : WorkingHours) (now at : ℕ) (m : Memory) (q : Queue) (d : Domain)
    → is_open h now ≡ true
    → Memᴰ d (active_domains m)
    → Planned (start_of_workday h now) at d.id q.rows (tick h now at m q).1.rows
unfolding tick
tick-Planned h now at m q d open_now active =
    let since = start_of_workday h now in
    elim (Bool-cases (planned_today since d.id q)) [
      | inl done ↦
          let (r, listed, holds) = any-mem (is_plan since d.id) q.rows done in
          let plan = is_plan-IsPlanOf since d.id r holds in
          kept r listed plan (tick-adds_none h now at d.id m q r plan listed)
      | inr todo ↦
          queued (Unplanned-of since d.id q.rows todo)
            (rw open_now (plan_domains-new since at d (active_domains m) 0 q active todo))
    ]

new_plan :
    {since at domain_id : ℕ} {old new : List JobRow}
    → Planned since at domain_id old new
    → Unplanned since domain_id old
    → NewPlan at domain_id new
new_plan {old = old} (kept r listed plan none_added) todo =
    absurd (All-mem _ r old listed todo plan)
new_plan (queued todo' new) todo = new

-- Within working hours a tick sees to every active domain. One whose planning stands in the queue,
-- queued or under way or created since the start of the workday, gets no other. Every other one
-- gets a planning job, created at the time of the tick.
pub tick-plans :
    (h : WorkingHours) (now at : ℕ) (m : Memory) (q : Queue)
    → is_open h now ≡ true
    → All
        (λ d. Planned (start_of_workday h now) at d.id q.rows (tick h now at m q).1.rows)
        (active_domains m)
tick-plans h now at m q open_now =
    All-mems (active_domains m) (λ d listed. tick-Planned h now at m q d open_now listed)

-- Each row of the one queue is in the other, where its status may have changed but not what it is
-- or when it was asked for.
abbrev pub IsContinued : List JobRow → List JobRow → Type 0
IsContinued old new =
    (r : JobRow)
    → Memᴰ r old
    → (s : JobRow) × Memᴰ s new
      × (s.kind ≡ r.kind)
      × (s.payload ≡ r.payload)
      × (s.created_at ≡ r.created_at)

-- Where a tick within working hours planned a domain that had no planning of the day, a later tick
-- of the same workday queues none for it, whatever became of the jobs in the meantime, if the
-- database's clock was past the start of the workday.
pub tick-again :
    (h : WorkingHours) (now at later at' : ℕ) (m n : Memory) (q after : Queue) (d : Domain)
    → is_open h now ≡ true
    → Memᴰ d (active_domains m)
    → Unplanned (start_of_workday h now) d.id q.rows
    → start_of_workday h now ≤ at
    → start_of_workday h later ≡ start_of_workday h now
    → IsContinued (tick h now at m q).1.rows after.rows
    → NoNewPlan d.id after.rows (tick h later at' n after).1.rows
tick-again h now at later at' m n q after d open_now active todo clock same continued =
    let new = new_plan (tick-Planned h now at m q d open_now active) todo in
    let (s, listed, kind, payload, created) = continued new.row new.listed in
    let plans : plans_for d.id s ≡ true = rw (kind, payload) new.plans in
    let fresh : start_of_workday h later ≤ s.created_at =
      omega (arith, created, new.fresh, same, clock) in
    tick-adds_none h later at' d.id n after s ((plans, inr fresh)) listed
