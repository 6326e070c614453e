-- ===== src/Worker/Calling.antt =====
-- Which jobs a worker starts outside working hours (`run_forever` in src/collegium/worker.py).
use collegium.Prelude.{ℕ, ◌≡◌, ◌⊎◌, subst, ap, sym, Bool, true, false, some, arith}
use collegium.Jobs.{ask, draft, reply, Kind, Job, Queue, JobRow, claim, is_due, is_eligible}
use collegium.Jobs.Claiming.{Claimed, claim-Claimed}
use collegium.Hours.{WorkingHours, is_open}
use collegium.Worker.{any_hour, kinds_at}

-- The owner is waiting for it.
abbrev pub IsForOwner : Kind → Type 0
IsForOwner kind = (kind ≡ ask) ⊎ ((kind ≡ draft) ⊎ (kind ≡ reply))

eligible-IsForOwner :
    (now : ℕ) (locked : ℕ → Bool) (r : JobRow)
    → is_eligible now (some any_hour) locked r ≡ true
    → IsForOwner r.kind
unfolding is_due
eligible-IsForOwner now locked r e = ground arith

-- Outside working hours the worker claims only questions, drafts and replies.
pub closed-IsForOwner :
    (h : WorkingHours) (now at : ℕ) (locked : ℕ → Bool) (q q' : Queue) (job : Job)
    → is_open h now ≡ false
    → claim at (kinds_at h now) locked q ≡ some (job, q')
    → IsForOwner job.kind
closed-IsForOwner h now at locked q q' job closed e =
    let c : claim at (some any_hour) locked q ≡ some (job, q') = rw closed at e in
    let t =
      subst (Claimed at (some any_hour) locked q) c (claim-Claimed at (some any_hour) locked q) in
    subst IsForOwner (ap (λ (j : Job). j.kind) (sym t.handed))
      (eligible-IsForOwner at locked t.row t.eligible)
