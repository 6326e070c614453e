-- ===== src/Roles/Ranks.antt =====
-- How near a job is to the end of the loop of research, review, verdict and resolution.
use collegium.Prelude.{
  ℕ, ◌+◌, ◌-◌, ◌*◌, ◌≤◌, ◌<◌, Option, none, some, or_default, All-map, arith, Bool, true, false,
  if◌then◌else◌,
}
use collegium.Jobs.{
  Kind, research, review, record_verdict, resolve, corroborate, Payload, JobRow, Queue,
}
use collegium.Db.{Db, Adds, Adds-refl}

-- How far a job of the loop is from its end; other jobs start nothing of it.
abbrev pub rank_of : Kind → Payload → ℕ
rank_of research p = 10
rank_of corroborate p = 10
rank_of resolve p = 3 * (2 - or_default p.round 1) + 3
rank_of review p = 3 * (2 - or_default p.round 0) + 2
rank_of record_verdict p = 3 * (2 - or_default p.round 0) + 1
rank_of _ p = 0

abbrev pub rank : JobRow → ℕ
rank r = rank_of r.kind r.payload

abbrev pub IsBelow : ℕ → JobRow → Type 0
IsBelow n r = rank r < n

-- What a transaction does when it is run: jobs of a lower rank are added, and none is lost.
abbrev pub Descends : ℕ → Option (Db → Db) → Type 0
Descends n none = Unit
Descends n (some change) = (db : Db) → Adds (IsBelow n) db.queue (change db).queue

pub Descends-skip : (n : ℕ) → Descends n (some (λ db. db))
Descends-skip n db = Adds-refl (IsBelow n) db.queue

pub Descends-if :
    (n : ℕ) (test : Bool) (x y : Option (Db → Db))
    → Descends n x
    → Descends n y
    → Descends n (if test then x else y)
Descends-if n true x y h k = h
Descends-if n false x y h k = k

pub Below-mono : (a b : ℕ) (q q' : Queue) → a ≤ b → Adds (IsBelow a) q q' → Adds (IsBelow b) q q'
Below-mono a b q q' le x = record {
  added = x.added;
  grown = x.grown;
  each = All-map x.added (λ r lt. omega (arith, lt, le)) x.each;
}

pub Descends-mono : (a b : ℕ) → a ≤ b → (o : Option (Db → Db)) → Descends a o → Descends b o
Descends-mono a b le none h = tt
Descends-mono a b le (some change) h = λ db. Below-mono a b db.queue (change db).queue le (h db)
