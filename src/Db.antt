-- ===== src/Db.antt =====
-- The database as the roles see it: institutional memory and the work queue. A role's `persist` runs
-- in one transaction (src/collegium/db.py, roles/base.py): it returns the whole new state, or it
-- raises and nothing of it is kept.
use collegium.Prelude.{ℕ, ◌≡◌, refl, List, [], ◌∷◌, ◌++◌, Option, All, All-append}
use collegium.Jobs.{Kind, Payload, JobRow, Queue, enqueue, new_row}
use collegium.Memory.{Memory}
use mathlib.Core.List.{append-nil, append_assoc}

pub record Db : Type 0 where
  pub memory : Memory
  pub queue : Queue

-- jobs.enqueue with the default priority, as a step of a transaction.
unfoldable pub enqueue_job : ℕ → Kind → Payload → Option ℕ → Db → Db
unfolding enqueue
enqueue_job now kind payload parent db = record db {
  queue = (enqueue now kind payload parent 3 db.queue).1;
}

-- The same with a priority.
unfoldable pub enqueue_with : ℕ → Kind → Payload → Option ℕ → ℕ → Db → Db
unfolding enqueue
enqueue_with now kind payload parent priority db = record db {
  queue = (enqueue now kind payload parent priority db.queue).1;
}

abbrev pub with_memory : (Memory → Memory) → Db → Db
with_memory change db = record db { memory = change db.memory }

-- The jobs of `q` are all there as before, and each one added has the property.
pub record Adds (P : JobRow → Type 0) (q q' : Queue) : Type 0 where
  pub added : List JobRow
  pub grown : q'.rows ≡ q.rows ++ added
  pub each : All P added

module _ (P : JobRow → Type 0) where
  pub Adds-refl : (q : Queue) → Adds P q q
  Adds-refl q = record { added = []; grown = rw append-nil; each = tt }

  pub Adds-trans : {q r s : Queue} → Adds P q r → Adds P r s → Adds P q s
  Adds-trans {q} a b = record {
    added = a.added ++ b.added;
    grown = rw (b.grown, a.grown) (append_assoc q.rows a.added b.added);
    each = All-append P a.added b.added a.each b.each;
  }

  pub enqueue_job-Adds :
      (now : ℕ) (kind : Kind) (payload : Payload) (parent : Option ℕ) (db : Db)
      → P (new_row now kind payload parent 3 db.queue.next_id)
      → Adds P db.queue (enqueue_job now kind payload parent db).queue
  unfolding enqueue_job
  enqueue_job-Adds now kind payload parent db p = record {
    added = new_row now kind payload parent 3 db.queue.next_id ∷ [];
    grown = refl;
    each = (p, tt);
  }

  pub enqueue_with-Adds :
      (now : ℕ) (kind : Kind) (payload : Payload) (parent : Option ℕ) (priority : ℕ) (db : Db)
      → P (new_row now kind payload parent priority db.queue.next_id)
      → Adds P db.queue (enqueue_with now kind payload parent priority db).queue
  unfolding enqueue_with
  enqueue_with-Adds now kind payload parent priority db p = record {
    added = new_row now kind payload parent priority db.queue.next_id ∷ [];
    grown = refl;
    each = (p, tt);
  }
