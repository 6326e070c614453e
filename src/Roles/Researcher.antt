-- ===== src/Roles/Researcher.antt =====
-- The Researcher's first job (src/collegium/roles/researcher.py): hypotheses and evidence from an
-- observation. What the search and the model answer is given; an exception is `none`. The sets of
-- ids are kept in the order of their first mention.
use collegium.Prelude.{
  ℕ, suc, not, ◌||◌, Option, none, some, List, [], ◌∷◌, ◌++◌, ltb, if◌then◌else◌, map, String,
  is_some, or_default,
}
use collegium.Text.{Text, text_in, codes}
use collegium.Acquisition.{Document}
use collegium.Jobs.{review, map_entities, Payload, no_payload}
use collegium.Memory.{
  Memory, Hypothesis, Observation, observation, ObservationStatus, observation_accepted,
  dismissed_observation, live_hypotheses, node_domain_ids, find_live_hypothesis, has_relationship,
  add_relationship, add_hypothesis, tag_domains, assess_confidence, set_observation_status,
  hypothesis_node, derived_from, refines,
}
use collegium.Db.{Db, enqueue_job, enqueue_with}
use collegium.Historian.{is_empty}
use collegium.Roles.{
  EvidenceItem, GroundedEvidence, Grounding, ground_evidence, label_of, store_evidence, supported,
  EvidenceOutcome, add_id,
}
use collegium.Roles.Labels.{Labels, labelled, id_of, as_targets}

pub record ProposedHypothesis : Type 0 where
  pub label : Text
  pub statement : Text
  pub rationale : Text
  pub falsified_if : Text
  pub refines : Option Text
  pub confidence : ℕ

pub record ResearchFindings : Type 0 where
  pub hypotheses : List ProposedHypothesis
  pub evidence : List EvidenceItem

-- What the loop over the proposed hypotheses carries along.
pub record Proposing : Type 0 where
  pub targets : Labels
  pub new_ids : List ℕ
  pub matched : List ℕ
  pub unsupported : ℕ
  pub memory : Memory

-- f"{rationale}\nWould be shown wrong by: {falsified_if}"
abbrev pub full_rationale : ProposedHypothesis → Text
full_rationale h = h.rationale ++ 10 ∷ codes "Would be shown wrong by: " ++ h.falsified_if

-- existing_labels.get((h.refines or "").strip().upper())
abbrev pub refined_by : Labels → ProposedHypothesis → Option ℕ
refined_by existing h = id_of (label_of (or_default h.refines [])) existing

abbrev pub relate_refined : ℕ → Option ℕ → Memory → Memory
relate_refined hypothesis_id none m = m
relate_refined hypothesis_id (some refined) m = (add_relationship hypothesis_id refines refined m).1

-- The text of the first assessment.
abbrev pub initial_assessment : String
initial_assessment = "Initial assessment when proposed."

abbrev pub relate_new : ProposedHypothesis → ℕ → List ℕ → Labels → ℕ → Memory → Memory
relate_new h observation_id domain_ids existing hypothesis_id m =
    let tagged = tag_domains hypothesis_id domain_ids m in
    let derived = (add_relationship hypothesis_id derived_from observation_id tagged).1 in
    assess_confidence hypothesis_id h.confidence initial_assessment
      (relate_refined hypothesis_id (refined_by existing h) derived)

abbrev pub propose_new :
    ProposedHypothesis → ℕ → List ℕ → Labels → Proposing → ℕ × Memory → Proposing
propose_new h observation_id domain_ids existing x (hypothesis_id, m) = record x {
  targets = x.targets ++ (label_of h.label, hypothesis_id) ∷ [];
  new_ids = x.new_ids ++ hypothesis_id ∷ [];
  memory = relate_new h observation_id domain_ids existing hypothesis_id m;
}

abbrev pub derive_existing : ℕ → ℕ → Memory → Memory
derive_existing existing_id observation_id m =
    if has_relationship existing_id derived_from observation_id m
    then m
    else (add_relationship existing_id derived_from observation_id m).1

abbrev pub match_or_add :
    ProposedHypothesis → ℕ → List ℕ → Labels → Option ℕ → Proposing → Proposing
match_or_add h observation_id domain_ids existing (some existing_id) x = record x {
  targets = x.targets ++ (label_of h.label, existing_id) ∷ [];
  matched = x.matched ++ existing_id ∷ [];
  memory = derive_existing existing_id observation_id x.memory;
}
match_or_add h observation_id domain_ids existing none x =
    propose_new h observation_id domain_ids existing x
      (add_hypothesis h.statement (some (full_rationale h)) x.memory)

-- The body of the loop over the proposed hypotheses.
abbrev pub propose_one :
    List Text → ℕ → List ℕ → Labels → ProposedHypothesis → Proposing → Proposing
propose_one supported_labels observation_id domain_ids existing h x =
    let held = find_live_hypothesis h.statement domain_ids x.memory in
    if is_some (id_of (label_of h.label) x.targets)
    then x
    else if not (text_in supported_labels (label_of h.label))
    then record x { unsupported = suc x.unsupported }
    else match_or_add h observation_id domain_ids existing held x

unfoldable pub propose_all :
    List Text → ℕ → List ℕ → Labels → List ProposedHypothesis → Proposing → Proposing
propose_all supported_labels observation_id domain_ids existing [] x = x
propose_all supported_labels observation_id domain_ids existing (h ∷ hypotheses) x =
    propose_all supported_labels observation_id domain_ids existing hypotheses
      (propose_one supported_labels observation_id domain_ids existing h x)

-- `list(dict.fromkeys(ids))`
abbrev pub without_repeats : List ℕ → List ℕ → List ℕ
without_repeats seen [] = seen
without_repeats seen (n ∷ ids) = without_repeats (add_id n seen) ids

-- A review without a round is of the first.
abbrev pub first_review : ℕ → Payload
first_review hypothesis_id = record no_payload { hypothesis_id = some hypothesis_id }

unfoldable pub enqueue_reviews : ℕ → ℕ → List ℕ → Db → Db
enqueue_reviews now job_id [] db = db
enqueue_reviews now job_id (h ∷ ids) db =
    enqueue_reviews now job_id ids (enqueue_job now review (first_review h) (some job_id) db)

abbrev pub map_payload : ℕ → List ℕ → Payload
map_payload observation_id evidence_ids = record no_payload {
  observation_id = some observation_id;
  evidence_ids = some evidence_ids;
}

abbrev pub enqueue_map : ℕ → ℕ → ℕ → EvidenceOutcome → Db → Db
enqueue_map now job_id observation_id o db =
    let queued =
      enqueue_with now map_entities (map_payload observation_id o.evidence_ids) (some job_id) 4
        db in
    if ltb 0 o.stored then queued else db

abbrev pub observed_status : List ℕ → EvidenceOutcome → ObservationStatus
observed_status new_ids o =
    if not (is_empty new_ids) || ltb 0 o.stored then observation_accepted else dismissed_observation

abbrev pub to_review : Proposing → EvidenceOutcome → List ℕ
to_review x o = without_repeats [] (x.new_ids ++ (x.matched ++ o.touched))

-- What follows the evidence: the observation's status, and the jobs.
abbrev pub conclude_research : ℕ → ℕ → ℕ → Proposing → Db → EvidenceOutcome × Memory → Db
conclude_research now job_id observation_id x db (o, m) = enqueue_map now job_id observation_id o (
    enqueue_reviews now job_id (to_review x o) (record db {
      memory = set_observation_status observation_id (observed_status x.new_ids o) m;
    }))

abbrev pub store_proposed : ℕ → ℕ → ℕ → List ℕ → List GroundedEvidence → Db → Proposing → Db
store_proposed now job_id observation_id domain_ids grounded db x =
    conclude_research now job_id observation_id x db
      (store_evidence grounded (as_targets hypothesis_node x.targets) domain_ids x.memory)

unfoldable pub persist_research :
    ℕ → ℕ → ℕ → List ℕ → Labels → List ProposedHypothesis → List GroundedEvidence → Db → Db
persist_research now job_id observation_id domain_ids existing hypotheses grounded db =
    store_proposed now job_id observation_id domain_ids grounded db (
      propose_all (supported grounded) observation_id domain_ids existing hypotheses (record {
        targets = existing;
        new_ids = [];
        matched = [];
        unsupported = 0;
        memory = db.memory;
      }))

abbrev pub existing_labels : List ℕ → Memory → Labels
existing_labels domain_ids m =
    labelled (codes "E") (map (λ (h : Hypothesis). h.id) (live_hypotheses domain_ids 15 m))

abbrev pub research_quotes :
    ℕ → ℕ → ℕ → List ProposedHypothesis → Memory → Option Grounding → Option (Db → Db)
research_quotes now job_id observation_id hypotheses m none = none
research_quotes now job_id observation_id hypotheses m (some g) =
    let domain_ids = node_domain_ids observation_id m in
    some (
      persist_research now job_id observation_id domain_ids (existing_labels domain_ids m)
        hypotheses g.grounded)

-- No documents: NothingToWorkWith.
abbrev pub research_documents :
    ℕ → ℕ → ℕ → List Document → ResearchFindings → Memory → Option (Db → Db)
research_documents now job_id observation_id [] answer m = none
research_documents now job_id observation_id (d ∷ documents) answer m =
    research_quotes now job_id observation_id answer.hypotheses m
      (ground_evidence answer.evidence (d ∷ documents))

abbrev pub research_observed :
    ℕ → ℕ → ℕ → List Document → ResearchFindings → Memory → Option Observation → Option (Db → Db)
research_observed now job_id observation_id documents answer m none = none
research_observed now job_id observation_id documents answer m (some o) =
    research_documents now job_id observation_id documents answer m

-- `Researcher.prepare`
unfoldable pub prepare_research :
    ℕ → ℕ → ℕ → List Document → ResearchFindings → Memory → Option (Db → Db)
prepare_research now job_id observation_id documents answer m =
    research_observed now job_id observation_id documents answer m (observation observation_id m)
