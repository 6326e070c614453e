-- ===== src/Historian/Rounds.antt =====
-- Which jobs the Historian's transaction queues (`persist` in src/collegium/roles/historian.py).
use collegium.Prelude.{
  ℕ, suc, ◌<◌, ◌≡◌, ◌⊎◌, refl, none, some, List, [], ◌∷◌, ◌++◌, arith, inl, inr,
}
use collegium.Jobs.{resolve, announce, Verdict, Payload, JobRow}
use collegium.Memory.{
  set_hypothesis_status, refined_hypotheses, critiques_of, HypothesisStatus, superseded, Critique,
  Hypothesis,
}
use collegium.Db.{Db, enqueue_job, with_memory, Adds, Adds-refl, Adds-trans, enqueue_job-Adds}
use collegium.Historian.{
  ruling_on, resolve_payload, retired_payload, superseded_payload, Ruling, settle_open,
  write_status, finish, supersede, supersede_all, apply_rules, persist, Note,
}
use collegium.Historian.Records.{Holds, persist-Holds}

-- A follow-up of a verdict recorded in this round: the next round, if the rounds are not used up,
-- or an announcement.
abbrev pub IsFollowUp : ℕ → ℕ → JobRow → Type 0
IsFollowUp hid round r =
    ((r.kind ≡ resolve) × (r.payload ≡ resolve_payload hid (suc round)) × (round < 2))
    ⊎ (r.kind ≡ announce)

module _ (now job_id hid round : ℕ) where
  abbrev Follows : Db → Db → Type 0
  Follows db db' = Adds (IsFollowUp hid round) db.queue db'.queue

  same : (db : Db) → Follows db db
  same db = Adds-refl (IsFollowUp hid round) db.queue

  announced :
      (payload : Payload) (db : Db) → Follows db (enqueue_job now announce payload (some job_id) db)
  announced payload db =
      enqueue_job-Adds (IsFollowUp hid round) now announce payload (some job_id) db (inr refl)

  next_round :
      (db : Db)
      → round < 2
      → Follows db (enqueue_job now resolve (resolve_payload hid (suc round)) (some job_id) db)
  next_round db lt =
      enqueue_job-Adds (IsFollowUp hid round) now resolve (resolve_payload hid (suc round))
        (some job_id) db (inl (refl, refl, lt))

  settle_open-Follows :
      (ks : List Critique) (status : HypothesisStatus) (db : Db)
      → Follows db (settle_open now job_id hid round ks status db).db
  unfolding settle_open
  settle_open-Follows ks status db = ground (arith, same db, next_round db)

  write_status-Follows :
      (h : Hypothesis) (r : Ruling) → Follows r.db (write_status now job_id h r).db
  unfolding write_status
  write_status-Follows h r = ground (
    arith,
    same r.db,
    announced (retired_payload h.id) r.db,
    announced (retired_payload h.id) (with_memory (set_hypothesis_status h.id r.status none) r.db),
  )

  supersede-Follows :
      (old_id : ℕ) (acc : Db × List Note) → Follows acc.0 (supersede now job_id hid old_id acc).0
  unfolding supersede
  supersede-Follows old_id (db, notes) = ground (
    arith,
    same db,
    announced (superseded_payload old_id hid)
        (with_memory (set_hypothesis_status old_id superseded (some hid)) db),
  )

  supersede_all-Follows :
      (ids : List ℕ) (acc : Db × List Note) → Follows acc.0 (supersede_all now job_id hid ids acc).0
  unfolding supersede_all
  supersede_all-Follows [] acc = same acc.0
  supersede_all-Follows (i ∷ ids) acc =
      Adds-trans (IsFollowUp hid round) (supersede-Follows i acc)
        (supersede_all-Follows ids (supersede now job_id hid i acc))

  finish-Follows : (notes : List Note) (r : Ruling) → Follows r.db (finish now job_id hid notes r).0
  unfolding finish
  finish-Follows notes r = ground (
    arith,
    same r.db,
    supersede_all-Follows (refined_hypotheses hid r.db.memory) (r.db, notes ++ r.notes),
  )

  apply_rules-Follows :
      (v : Verdict) (h : Hypothesis) (db : Db)
      → Follows db (apply_rules now job_id hid v round h db).0
  unfolding apply_rules
  apply_rules-Follows v h db =
      let status = ruling_on hid v h db.memory in
      let settled = settle_open now job_id hid round (critiques_of hid db.memory) status db in
      Adds-trans (IsFollowUp hid round)
        (Adds-trans (IsFollowUp hid round)
          (settle_open-Follows (critiques_of hid db.memory) status db)
          (write_status-Follows h settled))
        (finish-Follows _ (write_status now job_id h settled))

-- Recording a verdict of some round keeps every job in the queue and adds follow-ups only: critique
-- resolution in the next round, while fewer than two rounds are used up, and announcements.
pub persist-Follows :
    (now job_id hid : ℕ) (v : Verdict) (round : ℕ) (db : Db)
    → Holds
        (λ db'. Adds (IsFollowUp hid round) db.queue db'.queue)
        (persist now job_id hid v round db)
persist-Follows now job_id hid v round db =
    persist-Holds (λ db'. Adds (IsFollowUp hid round) db.queue db'.queue) now job_id hid v round db
      (Adds-refl (IsFollowUp hid round) db.queue)
      (λ h e. apply_rules-Follows now job_id hid round v h db)
