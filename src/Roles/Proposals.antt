-- ===== src/Roles/Proposals.antt =====
-- Research holds no claim twice (`persist` of src/collegium/roles/researcher.py).
use collegium.Prelude.{
  ℕ, suc, ◌≤◌, ◌≡◌, ◌≢◌, All, ap, sym, subst, ◌∙◌, refl, Option, none, some, List, [], ◌∷◌, ◌++◌,
  arith, Bool-cases, inl, inr, is_some, ltb,
}
use collegium.Text.{Text, text_in}
use collegium.Memory.{
  Memory, Locale, sql_key, statement_key, Hypothesis, proposed, tag_domain, find_live_hypothesis,
  add_hypothesis, tag_domains, add_relationship, set_observation_status, has_relationship,
  derived_from, refines, hypothesis_node,
}
use collegium.Jobs.{review}
use collegium.Db.{Db, enqueue_job, enqueue_with}
use collegium.Roles.{GroundedEvidence, EvidenceOutcome, supported, label_of, store_evidence}
use collegium.Roles.Labels.{Labels, id_of, as_targets}
use collegium.Roles.Researcher.{
  ProposedHypothesis, Proposing, full_rationale, refined_by, initial_assessment, relate_refined,
  relate_new, propose_new, derive_existing, match_or_add, propose_one, propose_all,
  conclude_research, store_proposed, persist_research, first_review, enqueue_map, enqueue_reviews,
  to_review, observed_status,
}
use collegium.Roles.Quiet.{
  Quiet, Quiet-refl, Quiet-trans, tag_domains-Quiet, add_relationship-Quiet,
  assess_confidence-Quiet, set_observation_status-Quiet, store_evidence-Quiet,
}
use collegium.Roles.Claims.{HoldsOnce, HoldsOnce-Quiet, claims, not_found, HoldsOnce-add}

-- The key that the query takes of the statement is the one that it compares with.
abbrev pub Agrees : Locale → ProposedHypothesis → Type 0
Agrees locale h = sql_key locale h.statement ≡ statement_key h.statement

relate_refined-Quiet :
    (hypothesis_id : ℕ) (refined : Option ℕ) (m : Memory)
    → Quiet m (relate_refined hypothesis_id refined m)
relate_refined-Quiet hypothesis_id none m = Quiet-refl m
relate_refined-Quiet hypothesis_id (some refined) m =
    add_relationship-Quiet hypothesis_id refines refined m

derive_existing-Quiet :
    (existing_id observation_id : ℕ) (m : Memory)
    → Quiet m (derive_existing existing_id observation_id m)
derive_existing-Quiet existing_id observation_id m =
    elim (Bool-cases (has_relationship existing_id derived_from observation_id m)) [
      | inl e ↦ rw e (Quiet-refl m)
      | inr e ↦ rw e (add_relationship-Quiet existing_id derived_from observation_id m)
    ]

tag_domains-next_id :
    (node_id : ℕ) (domain_ids : List ℕ) (m : Memory)
    → (tag_domains node_id domain_ids m).next_id ≡ m.next_id
unfolding tag_domains
tag_domains-next_id node_id [] m = refl
tag_domains-next_id node_id (d ∷ domain_ids) m =
    tag_domains-next_id node_id domain_ids (tag_domain node_id d m)

relate_new-Quiet :
    (h : ProposedHypothesis) (observation_id : ℕ) (domain_ids : List ℕ) (existing : Labels)
    (m added : Memory)
    → Quiet m added
    → let n = relate_new h observation_id domain_ids existing m.next_id added in
      Quiet m n × (added.next_id ≤ n.next_id)
relate_new-Quiet h observation_id domain_ids existing m added q =
    let k = m.next_id in
    let tagged = tag_domains k domain_ids added in
    let derived = (add_relationship k derived_from observation_id tagged).1 in
    let refined = relate_refined k (refined_by existing h) derived in
    let related = Quiet-trans (add_relationship-Quiet k derived_from observation_id tagged) (
      Quiet-trans (relate_refined-Quiet k (refined_by existing h) derived)
        (assess_confidence-Quiet k h.confidence initial_assessment refined)) in
    (
      Quiet-trans (tag_domains-Quiet m added k domain_ids (omega arith) q) related,
      omega (arith, related.later, tag_domains-next_id k domain_ids added),
    )

propose_new-HoldsOnce :
    (locale : Locale) (h : ProposedHypothesis) (observation_id : ℕ) (domain_ids : List ℕ)
    (existing : Labels) (x : Proposing)
    → Agrees locale h
    → find_live_hypothesis h.statement domain_ids x.memory ≡ none
    → HoldsOnce locale domain_ids x.memory
    → HoldsOnce locale domain_ids
        (propose_new h observation_id domain_ids existing x
          (add_hypothesis h.statement (some (full_rationale h)) x.memory)).memory
unfolding add_hypothesis find_live_hypothesis
propose_new-HoldsOnce locale h observation_id domain_ids existing x agree absent holds =
    let m = x.memory in
    let new : Hypothesis = record {
      id = m.next_id;
      statement = h.statement;
      rationale = some (full_rationale h);
      status = proposed;
      superseded_by = none;
    } in
    let added : Memory = record m {
      next_id = suc m.next_id;
      hypotheses = m.hypotheses ++ new ∷ [];
    } in
    let before : Memory = record m { hypotheses = m.hypotheses ++ new ∷ [] } in
    let q : Quiet before added = record {
      located = refl;
      same = refl;
      later = omega arith;
      tags = λ k d lt. refl;
    } in
    let apart : All (λ t. t ≢ sql_key m.locale h.statement) (claims domain_ids m m.hypotheses) =
      let key : sql_key m.locale h.statement ≡ statement_key h.statement =
        ap (λ l. sql_key l h.statement) holds.located ∙ agree in
      subst (λ t. All (λ s. s ≢ t) (claims domain_ids m m.hypotheses)) (sym key)
        (not_found h.statement domain_ids m m.hypotheses absent) in
    let (related, later) = relate_new-Quiet h observation_id domain_ids existing before added q in
    HoldsOnce-add locale domain_ids m
      (relate_new h observation_id domain_ids existing m.next_id added) new refl apart related later
      holds

match_or_add-HoldsOnce :
    (locale : Locale) (h : ProposedHypothesis) (observation_id : ℕ) (domain_ids : List ℕ)
    (existing : Labels) (held : Option ℕ) (x : Proposing)
    → Agrees locale h
    → find_live_hypothesis h.statement domain_ids x.memory ≡ held
    → HoldsOnce locale domain_ids x.memory
    → HoldsOnce locale domain_ids (match_or_add h observation_id domain_ids existing held x).memory
match_or_add-HoldsOnce locale h observation_id domain_ids existing (some k) x agree found holds =
    HoldsOnce-Quiet locale domain_ids x.memory (derive_existing k observation_id x.memory)
      (derive_existing-Quiet k observation_id x.memory) holds
match_or_add-HoldsOnce locale h observation_id domain_ids existing none x agree absent holds =
    propose_new-HoldsOnce locale h observation_id domain_ids existing x agree absent holds

propose_one-HoldsOnce :
    (locale : Locale) (supported_labels : List Text) (observation_id : ℕ) (domain_ids : List ℕ)
    (existing : Labels) (h : ProposedHypothesis) (x : Proposing)
    → Agrees locale h
    → HoldsOnce locale domain_ids x.memory
    → HoldsOnce locale domain_ids
        (propose_one supported_labels observation_id domain_ids existing h x).memory
propose_one-HoldsOnce locale supported_labels observation_id domain_ids existing h x agree holds =
    let held = find_live_hypothesis h.statement domain_ids x.memory in
    elim (Bool-cases (is_some (id_of (label_of h.label) x.targets))) [
      | inl e ↦ rw e holds
      | inr e ↦ elim (Bool-cases (text_in supported_labels (label_of h.label))) [
        | inl f ↦
            rw (e, f)
              (match_or_add-HoldsOnce locale h observation_id domain_ids existing held x agree refl
                holds)
        | inr f ↦ rw (e, f) holds
      ]
    ]

propose_all-HoldsOnce :
    (locale : Locale) (supported_labels : List Text) (observation_id : ℕ) (domain_ids : List ℕ)
    (existing : Labels) (hypotheses : List ProposedHypothesis) (x : Proposing)
    → All (Agrees locale) hypotheses
    → HoldsOnce locale domain_ids x.memory
    → HoldsOnce locale domain_ids
        (propose_all supported_labels observation_id domain_ids existing hypotheses x).memory
unfolding propose_all
propose_all-HoldsOnce locale supported_labels observation_id domain_ids existing [] x agree holds =
    holds
propose_all-HoldsOnce locale supported_labels observation_id domain_ids existing (h ∷ hypotheses) x
      agree holds =
    propose_all-HoldsOnce locale supported_labels observation_id domain_ids existing hypotheses
      (propose_one supported_labels observation_id domain_ids existing h x) agree.1
      (propose_one-HoldsOnce locale supported_labels observation_id domain_ids existing h x agree.0
        holds)

enqueue_reviews-memory :
    (now job_id : ℕ) (ids : List ℕ) (db : Db)
    → (enqueue_reviews now job_id ids db).memory ≡ db.memory
unfolding enqueue_reviews enqueue_job
enqueue_reviews-memory now job_id [] db = refl
enqueue_reviews-memory now job_id (h ∷ ids) db =
    enqueue_reviews-memory now job_id ids (enqueue_job now review (first_review h) (some job_id) db)

enqueue_map-memory :
    (now job_id observation_id : ℕ) (o : EvidenceOutcome) (db : Db)
    → (enqueue_map now job_id observation_id o db).memory ≡ db.memory
unfolding enqueue_with
enqueue_map-memory now job_id observation_id o db = elim (Bool-cases (ltb 0 o.stored)) [
  | inl e ↦ rw e refl
  | inr e ↦ rw e refl
]

conclude_research-HoldsOnce :
    (locale : Locale) (now job_id observation_id : ℕ) (domain_ids : List ℕ) (x : Proposing)
    (db : Db) (y : EvidenceOutcome × Memory)
    → HoldsOnce locale domain_ids y.1
    → HoldsOnce locale domain_ids (conclude_research now job_id observation_id x db y).memory
conclude_research-HoldsOnce locale now job_id observation_id domain_ids x db (o, m) holds =
    let status = observed_status x.new_ids o in
    let observed : Db = record db { memory = set_observation_status observation_id status m } in
    let reviews = enqueue_reviews now job_id (to_review x o) observed in
    rw
      (
        enqueue_map-memory now job_id observation_id o reviews,
        enqueue_reviews-memory now job_id (to_review x o) observed,
      )
      (HoldsOnce-Quiet locale domain_ids m observed.memory
        (set_observation_status-Quiet observation_id status m) holds)

store_proposed-HoldsOnce :
    (locale : Locale) (now job_id observation_id : ℕ) (domain_ids : List ℕ)
    (grounded : List GroundedEvidence) (db : Db) (x : Proposing)
    → HoldsOnce locale domain_ids x.memory
    → HoldsOnce locale domain_ids
        (store_proposed now job_id observation_id domain_ids grounded db x).memory
store_proposed-HoldsOnce locale now job_id observation_id domain_ids grounded db x holds =
    let targets = as_targets hypothesis_node x.targets in
    let y = store_evidence grounded targets domain_ids x.memory in
    conclude_research-HoldsOnce locale now job_id observation_id domain_ids x db y (
      HoldsOnce-Quiet locale domain_ids x.memory y.1
        (store_evidence-Quiet grounded targets domain_ids x.memory) holds)

-- Research keeps it that no two live hypotheses in the observation's domains have the same key in
-- the database, however often the model proposes one, where for each statement proposed the
-- database's key is Python's.
pub persist_research-HoldsOnce :
    (now job_id observation_id : ℕ) (domain_ids : List ℕ) (existing : Labels)
    (hypotheses : List ProposedHypothesis) (grounded : List GroundedEvidence) (db : Db)
    → All (Agrees db.memory.locale) hypotheses
    → HoldsOnce db.memory.locale domain_ids db.memory
    → HoldsOnce db.memory.locale domain_ids
        (persist_research now job_id observation_id domain_ids existing hypotheses grounded
          db).memory
unfolding persist_research
persist_research-HoldsOnce now job_id observation_id domain_ids existing hypotheses grounded db
      agree holds =
    let locale = db.memory.locale in
    let start : Proposing = record {
      targets = existing;
      new_ids = [];
      matched = [];
      unsupported = 0;
      memory = db.memory;
    } in
    store_proposed-HoldsOnce locale now job_id observation_id domain_ids grounded db
      (propose_all (supported grounded) observation_id domain_ids existing hypotheses start)
      (propose_all-HoldsOnce locale (supported grounded) observation_id domain_ids existing
        hypotheses start agree holds)
