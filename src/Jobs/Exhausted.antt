-- ===== src/Jobs/Exhausted.antt =====
-- A worker that dies on a job's last attempt (`claim` in src/collegium/jobs.py): the row stays
-- 'running', and no later claim takes it over.
use collegium.Prelude.{
  ℕ, ◌≤◌, ◌≡◌, subst, ◌≢◌, Bool, false, Option, some, List, [], ◌∷◌, Memᴰ, arith, Bool-cases,
  update_where, ◌==◌, inl, inr, Unique, eq_of_key,
}
use collegium.Jobs.{Kind, running, JobRow, Job, Queue, claim, is_due, start_attempt}
use collegium.Jobs.Claiming.{Took, Claimed, claim-Claimed}

-- The last attempt is under way.
pub record IsExhausted (r : JobRow) : Type 0 where
  pub under_way : r.status ≡ running
  pub spent : r.max_attempts ≤ r.attempts

pub exhausted_not_due :
    (now : ℕ) (kinds : Option (List Kind)) (r : JobRow) → IsExhausted r → is_due now kinds r ≡ false
unfolding is_due
exhausted_not_due now kinds r h = ground arith

-- An UPDATE by the key of another row leaves this one where it is.
mem-update_ne :
    (k : ℕ) (change : JobRow → JobRow) (r : JobRow) (rows : List JobRow)
    → (r.id == k) ≡ false
    → Memᴰ r rows
    → Memᴰ r (update_where (λ s. s.id == k) change rows)
mem-update_ne k change r [] ne m = elim m [ ]
mem-update_ne k change r (s ∷ rows) ne (Memᴰ.head e) = Memᴰ.head (ground (arith, e))
mem-update_ne k change r (s ∷ rows) ne (Memᴰ.tail m) =
    Memᴰ.tail (mem-update_ne k change r rows ne m)

module _ {now : ℕ} {kinds : Option (List Kind)} {locked : ℕ → Bool} {q q' : Queue} {job : Job}
    (t : Took now kinds locked q job q') (unique : Unique (λ s. s.id) q.rows) (r : JobRow)
    (listed : Memᴰ r q.rows) (stuck : IsExhausted r) where
  Took-other : (r.id == t.row.id) ≡ false
  Took-other = elim (Bool-cases (r.id == t.row.id)) [
    | inr e ↦ e
    | inl e ↦
        let same : r ≡ t.row =
          eq_of_key (λ s. s.id) r t.row q.rows unique listed t.listed (ground arith) in
        absurd (
          ground
            (arith, t.eligible, exhausted_not_due now kinds t.row (subst IsExhausted same stuck)))
  ]

  Took-mem : Memᴰ r q'.rows
  Took-mem = rw t.updated (mem-update_ne t.row.id (start_attempt now) r q.rows Took-other listed)

-- Where ids are unique, a row that is running its last attempt survives every claim as it is, at
-- whatever time and for whatever kinds: the job handed out is another one.
pub claim-keeps_exhausted :
    (now : ℕ) (kinds : Option (List Kind)) (locked : ℕ → Bool) {job : Job} (q : Queue) {q' : Queue}
    (r : JobRow)
    → Unique (λ s. s.id) q.rows
    → Memᴰ r q.rows
    → IsExhausted r
    → claim now kinds locked q ≡ some (job, q')
    → (job.id ≢ r.id) × Memᴰ r q'.rows
claim-keeps_exhausted now kinds locked q r unique listed stuck e =
    let t = subst (Claimed now kinds locked q) e (claim-Claimed now kinds locked q) in
    (ground (arith, t.handed, Took-other t unique r listed stuck), Took-mem t unique r listed stuck)
