-- ===== src/Roles/Steps.antt =====
-- Each job of the loop adds jobs of a lower rank (the `persist` of src/collegium/roles/skeptic.py,
-- resolver.py, corroborator.py and researcher.py).
use collegium.Prelude.{
  ℕ, ◌+◌, ◌-◌, ◌*◌, ◌<◌, Option, none, some, List, [], ◌∷◌, arith, inl, inr, Bool-cases, not, ◌||◌,
  ltb,
}
use collegium.Acquisition.{Document}
use collegium.Text.{codes}
use collegium.Jobs.{review, record_verdict, map_entities, JobRow}
use collegium.Memory.{
  Memory, Hypothesis, hypothesis_node, is_live, open_critiques, Observation, set_observation_status,
  node_domain_ids,
}
use collegium.Db.{
  Db, Adds, Adds-refl, Adds-trans, enqueue_job, enqueue_job-Adds, enqueue_with-Adds, with_memory,
}
use collegium.Historian.{is_empty}
use collegium.Historian.Rounds.{IsFollowUp}
use collegium.Roles.{
  EvidenceItem, GroundedEvidence, Grounding, ground_evidence, store_evidence, supported,
  EvidenceOutcome, Targets,
}
use collegium.Roles.Labels.{Labels, as_targets}
use collegium.Roles.Skeptic.{
  SkepticReview, review_live, persist_grounded, persist_review, searched, record_payload,
  write_review, open_labels,
}
use collegium.Roles.Resolver.{
  resolve_live, corroborate_live, with_documents, persist_quotes, persist_evidence, review_payload,
  resolve_targets, independent,
}
use collegium.Roles.Researcher.{
  ResearchFindings, ProposedHypothesis, research_observed, research_quotes, persist_research,
  store_proposed, conclude_research, enqueue_reviews, enqueue_map, observed_status, to_review,
  propose_all, existing_labels, first_review, map_payload, Proposing,
}
use collegium.Roles.Ranks.{IsBelow, Descends, Descends-skip, Descends-if, Descends-mono}

module _ (now job_id hid round : ℕ) where
  pub persist_grounded-Descends :
      (answer : SkepticReview) (m : Memory) (g : Option Grounding)
      → Descends (3 * (2 - round) + 2) (persist_grounded now job_id hid round answer m g)
  unfolding persist_review
  persist_grounded-Descends answer m none = tt
  persist_grounded-Descends answer m (some g) = λ db.
      let lower : 3 * (2 - round) + 1 < 3 * (2 - round) + 2 = omega arith in
      enqueue_job-Adds (IsBelow (3 * (2 - round) + 2)) now record_verdict
        (record_payload hid answer.verdict round) (some job_id)
        (with_memory
          (write_review hid round (open_labels hid m) answer g.grounded (node_domain_ids hid m)) db)
        lower

  pub review_live-Descends :
      (documents : List Document) (answer : SkepticReview) (m : Memory) (h : Option Hypothesis)
      → Descends (3 * (2 - round) + 2) (review_live now job_id hid round documents answer m h)
  review_live-Descends documents answer m none = tt
  review_live-Descends documents answer m (some h) =
      let g = ground_evidence answer.evidence (searched round documents) in
      Descends-if (3 * (2 - round) + 2) (is_live h.status)
        (persist_grounded now job_id hid round answer m g) (some (λ db. db))
        (persist_grounded-Descends answer m g) (Descends-skip (3 * (2 - round) + 2))

  pub persist_quotes-Descends :
      (targets : Targets) (m : Memory) (g : Option Grounding)
      → Descends (3 * (2 - round) + 3) (persist_quotes now job_id hid round targets m g)
  unfolding persist_evidence
  persist_quotes-Descends targets m none = tt
  persist_quotes-Descends targets m (some g) = λ db.
      let lower : 3 * (2 - round) + 2 < 3 * (2 - round) + 3 = omega arith in
      let stored : Memory → Memory =
        λ n. (store_evidence g.grounded targets (node_domain_ids hid m) n).1 in
      enqueue_job-Adds (IsBelow (3 * (2 - round) + 3)) now review (review_payload hid round)
        (some job_id) (with_memory stored db) lower

  pub with_documents-Descends :
      (targets : Targets) (documents : List Document) (answer : List EvidenceItem) (m : Memory)
      → Descends
          (3 * (2 - round) + 3)
          (with_documents now job_id hid round targets documents answer m)
  with_documents-Descends targets [] answer m = tt
  with_documents-Descends targets (d ∷ documents) answer m =
      persist_quotes-Descends targets m (ground_evidence answer (d ∷ documents))

  pub resolve_live-Descends :
      (documents : List Document) (answer : List EvidenceItem) (m : Memory) (h : Option Hypothesis)
      → Descends (3 * (2 - round) + 3) (resolve_live now job_id hid round documents answer m h)
  resolve_live-Descends documents answer m none = tt
  resolve_live-Descends documents answer m (some h) =
      Descends-if (3 * (2 - round) + 3) (not (is_live h.status) || is_empty (open_critiques hid m))
        (some (λ db. db))
        (with_documents now job_id hid round (resolve_targets hid m) documents answer m)
        (Descends-skip (3 * (2 - round) + 3))
        (with_documents-Descends (resolve_targets hid m) documents answer m)

  -- A verdict's follow-ups.
  pub IsFollowUp-IsBelow : (r : JobRow) → IsFollowUp hid round r → IsBelow (3 * (2 - round) + 1) r
  IsFollowUp-IsBelow r (inl (kind, payload, lt)) = rw (kind, payload) (omega (arith, lt))
  IsFollowUp-IsBelow r (inr kind) = rw kind (omega arith)

pub corroborate_live-Descends :
    (now job_id hid : ℕ) (documents : List Document) (answer : List EvidenceItem) (m : Memory)
    (h : Option Hypothesis)
    → Descends 10 (corroborate_live now job_id hid documents answer m h)
corroborate_live-Descends now job_id hid documents answer m none = tt
corroborate_live-Descends now job_id hid documents answer m (some h) =
    let targets : Targets = (codes "H", hid, hypothesis_node) ∷ [] in
    let o = with_documents now job_id hid 0 targets (independent hid m documents) answer m in
    Descends-if 10 (not (is_live h.status)) (some (λ db. db)) o (Descends-skip 10) (
      Descends-mono 9 10 (omega arith) o
        (with_documents-Descends now job_id hid 0 targets (independent hid m documents) answer m))

pub enqueue_reviews-Adds :
    (now job_id : ℕ) (ids : List ℕ) (db : Db)
    → Adds (IsBelow 10) db.queue (enqueue_reviews now job_id ids db).queue
unfolding enqueue_reviews
enqueue_reviews-Adds now job_id [] db = Adds-refl (IsBelow 10) db.queue
enqueue_reviews-Adds now job_id (h ∷ ids) db =
    Adds-trans (IsBelow 10)
      (enqueue_job-Adds (IsBelow 10) now review (first_review h) (some job_id) db (omega arith))
      (enqueue_reviews-Adds now job_id ids
        (enqueue_job now review (first_review h) (some job_id) db))

pub enqueue_map-Adds :
    (now job_id observation_id : ℕ) (o : EvidenceOutcome) (db : Db)
    → Adds (IsBelow 10) db.queue (enqueue_map now job_id observation_id o db).queue
enqueue_map-Adds now job_id observation_id o db = elim (Bool-cases (ltb 0 o.stored)) [
  | inl e ↦ rw e (
      enqueue_with-Adds (IsBelow 10) now map_entities (map_payload observation_id o.evidence_ids)
        (some job_id) 4 db (omega arith))
  | inr e ↦ rw e (Adds-refl (IsBelow 10) db.queue)
]

pub conclude_research-Adds :
    (now job_id observation_id : ℕ) (x : Proposing) (db : Db) (y : EvidenceOutcome × Memory)
    → Adds (IsBelow 10) db.queue (conclude_research now job_id observation_id x db y).queue
conclude_research-Adds now job_id observation_id x db (o, m) =
    let observed : Db = record db {
      memory = set_observation_status observation_id (observed_status x.new_ids o) m;
    } in
    let reviews = enqueue_reviews now job_id (to_review x o) observed in
    Adds-trans (IsBelow 10) (enqueue_reviews-Adds now job_id (to_review x o) observed)
      (enqueue_map-Adds now job_id observation_id o reviews)

pub store_proposed-Adds :
    (now job_id observation_id : ℕ) (domain_ids : List ℕ) (grounded : List GroundedEvidence)
    (db : Db) (x : Proposing)
    → Adds
        (IsBelow 10)
        db.queue
        (store_proposed now job_id observation_id domain_ids grounded db x).queue
store_proposed-Adds now job_id observation_id domain_ids grounded db x =
    conclude_research-Adds now job_id observation_id x db
      (store_evidence grounded (as_targets hypothesis_node x.targets) domain_ids x.memory)

pub persist_research-Adds :
    (now job_id observation_id : ℕ) (domain_ids : List ℕ) (existing : Labels)
    (hypotheses : List ProposedHypothesis) (grounded : List GroundedEvidence) (db : Db)
    → Adds
        (IsBelow 10)
        db.queue
        (persist_research now job_id observation_id domain_ids existing hypotheses grounded
          db).queue
unfolding persist_research
persist_research-Adds now job_id observation_id domain_ids existing hypotheses grounded db =
    let x = propose_all (supported grounded) observation_id domain_ids existing hypotheses (record {
      targets = existing;
      new_ids = [];
      matched = [];
      unsupported = 0;
      memory = db.memory;
    }) in
    store_proposed-Adds now job_id observation_id domain_ids grounded db x

pub research_quotes-Descends :
    (now job_id observation_id : ℕ) (hypotheses : List ProposedHypothesis) (m : Memory)
    (g : Option Grounding)
    → Descends 10 (research_quotes now job_id observation_id hypotheses m g)
research_quotes-Descends now job_id observation_id hypotheses m none = tt
research_quotes-Descends now job_id observation_id hypotheses m (some g) =
    let domain_ids = node_domain_ids observation_id m in
    persist_research-Adds now job_id observation_id domain_ids (existing_labels domain_ids m)
      hypotheses g.grounded

pub research_observed-Descends :
    (now job_id observation_id : ℕ) (documents : List Document) (answer : ResearchFindings)
    (m : Memory) (o : Option Observation)
    → Descends 10 (research_observed now job_id observation_id documents answer m o)
research_observed-Descends now job_id observation_id documents answer m none = tt
research_observed-Descends now job_id observation_id [] answer m (some o) = tt
research_observed-Descends now job_id observation_id (d ∷ documents) answer m (some o) =
    research_quotes-Descends now job_id observation_id answer.hypotheses m
      (ground_evidence answer.evidence (d ∷ documents))
