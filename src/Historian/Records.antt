-- ===== src/Historian/Records.antt =====
-- What the Historian's transaction does (`persist` in src/collegium/roles/historian.py).
use collegium.Prelude.{
  ℕ, ◌≡◌, ◌≢◌, ◌⊎◌, refl, sym, subst, true, false, Option, none, some, List, [], ◌∷◌, arith,
  Bool-cases, Option-cases, inl, inr, All, ◌==◌, All-update_where,
}
use collegium.Jobs.{Verdict}
use collegium.Memory.{
  HypothesisStatus, accepted, superseded, retired, Critique, is_live, same_status, Hypothesis,
  hypothesis, restate, set_hypothesis_status, critiques_of,
}
use collegium.Db.{Db, enqueue_job, with_memory}
use collegium.Historian.{
  decide, Ruling, settle_open, write_status, finish, supersede, supersede_all, ruling_on,
  apply_rules, persist, Note,
}

-- The schema's rule for hypotheses: superseded exactly when it says by what.
abbrev pub IsConsistent : Hypothesis → Type 0
IsConsistent h =
    ((h.status ≡ superseded) × (h.superseded_by ≢ none))
    ⊎ ((h.status ≢ superseded) × (h.superseded_by ≡ none))

abbrev pub AreConsistent : Db → Type 0
AreConsistent db = All IsConsistent db.memory.hypotheses

set_status-consistent :
    (hypothesis_id : ℕ) (status : HypothesisStatus) (by : Option ℕ) (db : Db)
    → IsConsistent
        (record { id = 0; statement = []; rationale = none; status = status; superseded_by = by })
    → AreConsistent db
    → AreConsistent (with_memory (set_hypothesis_status hypothesis_id status by) db)
unfolding set_hypothesis_status
set_status-consistent hypothesis_id status by db ok h =
    All-update_where IsConsistent (λ r. r.id == hypothesis_id) (restate status by)
      db.memory.hypotheses (λ r e old. ok) h

-- A decision never says "superseded".
decide-ne-superseded :
    (v : Verdict) (c : Option ℕ) (n : ℕ) (ks : List Critique) → decide v c n ks ≢ superseded
unfolding decide
decide-ne-superseded v none n ks = λ e. cc
decide-ne-superseded v (some c) n ks = λ e. ground arith

pub settle_open-status :
    (now job_id hid round : ℕ) (ks : List Critique) (status : HypothesisStatus) (db : Db)
    → let r = settle_open now job_id hid round ks status db in
      (r.db.memory ≡ db.memory)
      × ((r.status ≡ status) × (r.retiring ≡ false) ⊎ (r.status ≡ retired) × (r.retiring ≡ true))
unfolding settle_open enqueue_job
settle_open-status now job_id hid round ks status db = (ground arith, ground arith)

write_status-consistent :
    (now job_id : ℕ) (h : Hypothesis) (r : Ruling)
    → r.status ≢ superseded
    → AreConsistent r.db
    → AreConsistent (write_status now job_id h r).db
unfolding write_status enqueue_job
write_status-consistent now job_id h r ne ok =
    ground (arith, set_status-consistent h.id r.status none r.db (inr (ne, refl)) ok)

supersede-consistent :
    (now job_id hid old_id : ℕ) (acc : Db × List Note)
    → AreConsistent acc.0
    → AreConsistent (supersede now job_id hid old_id acc).0
unfolding supersede enqueue_job
supersede-consistent now job_id hid old_id (db, notes) ok =
    ground (arith, set_status-consistent old_id superseded (some hid) db (inl (refl, λ e. cc)) ok)

supersede_all-consistent :
    (now job_id hid : ℕ) (ids : List ℕ) (acc : Db × List Note)
    → AreConsistent acc.0
    → AreConsistent (supersede_all now job_id hid ids acc).0
unfolding supersede_all
supersede_all-consistent now job_id hid [] acc ok = ok
supersede_all-consistent now job_id hid (i ∷ ids) acc ok =
    supersede_all-consistent now job_id hid ids (supersede now job_id hid i acc)
      (supersede-consistent now job_id hid i acc ok)

finish-consistent :
    (now job_id hid : ℕ) (notes : List Note) (r : Ruling)
    → AreConsistent r.db
    → AreConsistent (finish now job_id hid notes r).0
unfolding finish
finish-consistent now job_id hid notes r ok = elim (Bool-cases (same_status r.status accepted)) [
  | inl yes_ ↦ rw yes_ (supersede_all-consistent now job_id hid _ _ ok)
  | inr no_ ↦ rw no_ ok
]

settle_open-ne-superseded :
    (now job_id hid round : ℕ) (ks : List Critique) (status : HypothesisStatus) (db : Db)
    → status ≢ superseded
    → (settle_open now job_id hid round ks status db).status ≢ superseded
unfolding settle_open
settle_open-ne-superseded now job_id hid round ks status db ne = ground arith

apply_rules-consistent :
    (now job_id hid : ℕ) (v : Verdict) (round : ℕ) (h : Hypothesis) (db : Db)
    → AreConsistent db
    → AreConsistent (apply_rules now job_id hid v round h db).0
unfolding apply_rules
apply_rules-consistent now job_id hid v round h db ok =
    let status = ruling_on hid v h db.memory in
    let settled = settle_open now job_id hid round (critiques_of hid db.memory) status db in
    finish-consistent now job_id hid _ (write_status now job_id h settled) (
      write_status-consistent now job_id h settled
        (settle_open-ne-superseded now job_id hid round (critiques_of hid db.memory) status db
          (decide-ne-superseded v _ _ _))
        (subst (λ m. All IsConsistent m.hypotheses)
          (sym (settle_open-status now job_id hid round (critiques_of hid db.memory) status db).0)
          ok))

abbrev pub Holds : (Db → Type 0) → Option (Db × List Note) → Type 0
Holds P none = Unit
Holds P (some (db, notes)) = P db

-- What holds of the state before, and of what the rules make of it, holds after `persist`.
pub persist-Holds :
    (P : Db → Type 0) (now job_id hid : ℕ) (v : Verdict) (round : ℕ) (db : Db)
    → P db
    → ((h : Hypothesis)
        → hypothesis hid db.memory ≡ some h
        → P (apply_rules now job_id hid v round h db).0)
    → Holds P (persist now job_id hid v round db)
unfolding persist
persist-Holds P now job_id hid v round db before after =
    elim (Option-cases (hypothesis hid db.memory)) [
      | inl absent ↦ rw (absent, Holds) tt
      | inr (h, found) ↦
          rw (found, Holds)
            (elim (Bool-cases (is_live h.status)) [
              | inl live ↦ rw (live, Holds) (after h found)
              | inr dead ↦ rw (dead, Holds) before
            ])
    ]

-- Recording a verdict keeps the schema's rule that a hypothesis is superseded exactly when it says
-- by what, of every hypothesis.
pub persist-consistent :
    (now job_id hid : ℕ) (v : Verdict) (round : ℕ) (db : Db)
    → AreConsistent db
    → Holds AreConsistent (persist now job_id hid v round db)
persist-consistent now job_id hid v round db ok =
    persist-Holds AreConsistent now job_id hid v round db ok
      (λ h e. apply_rules-consistent now job_id hid v round h db ok)
