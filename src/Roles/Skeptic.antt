-- ===== src/Roles/Skeptic.antt =====
-- The Skeptic's job (src/collegium/roles/skeptic.py). What the search and the model answer is given:
-- the documents, and the review. `prepare` reads memory as it is then, and returns the transaction
-- that is run later; an exception is `none`. Severities, labels and statuses are the model's.
use collegium.Prelude.{
  not, ℕ, zero, suc, ◌&&◌, ◌||◌, Option, none, some, List, [], ◌∷◌, ◌==◌, if◌then◌else◌, map,
  filter, take, String,
}
use collegium.Text.{Text, strip, strip_left, span, codes}
use collegium.Acquisition.{Document}
use collegium.Jobs.{record_verdict, Verdict, Payload, no_payload}
use collegium.Memory.{
  Memory, Critique, CritiqueStatus, is_open, is_live, Hypothesis, hypothesis, critiques_of,
  node_domain_ids, hypothesis_node, set_critique_status, add_critique, assess_confidence,
}
use collegium.Db.{Db, enqueue_job, with_memory}
use collegium.Roles.{
  EvidenceItem, GroundedEvidence, Grounding, ground_evidence, label_of, store_evidence, Targets,
}
use collegium.Roles.Labels.{Labels, labelled, id_of, is_digit}

pub record ProposedCritique : Type 0 where
  pub argument : Text
  pub alternative_explanation : Option String
  pub severity : ℕ

pub record CritiqueResolution : Type 0 where
  pub critique : Text
  pub status : CritiqueStatus
  pub resolution : String

pub record SkepticReview : Type 0 where
  pub resolutions : List CritiqueResolution
  pub critiques : List ProposedCritique
  pub evidence : List EvidenceItem
  pub confidence : ℕ
  pub confidence_rationale : String
  pub verdict : Verdict

abbrev pub after_label : Text → Text → Text → Text
after_label whole [] rest = whole
after_label whole (d ∷ digits) [] = whole
after_label whole (d ∷ digits) (c ∷ rest) = if c == b']' then strip_left rest else whole

-- `_STRAY_LABEL.sub("", s, count=1)`: the pattern is ^\[C\d+\]\s* in either case. Digits are the
-- ASCII ones.
abbrev pub without_label : Text → Text
without_label (b ∷ c ∷ s) =
    let (digits, rest) = span (λ e. not (is_digit e)) s in
    if b == b'[' && (c == b'C' || c == b'c') then after_label (b ∷ c ∷ s) digits rest else b ∷ c ∷ s
without_label s = s

-- `if critique_id and r.status != "open": …`
abbrev pub settle_found : CritiqueResolution → Option ℕ → Memory → Memory
settle_found r none m = m
settle_found r (some critique_id) m =
    if is_open r.status then m else set_critique_status critique_id r.status r.resolution m

abbrev pub settle_one : Labels → CritiqueResolution → Memory → Memory
settle_one labels r m = settle_found r (id_of (label_of r.critique) labels) m

unfoldable pub settle_all : Labels → List CritiqueResolution → Memory → Memory
settle_all labels [] m = m
settle_all labels (r ∷ resolutions) m = settle_all labels resolutions (settle_one labels r m)

-- A critique of nothing but a label is left out.
abbrev pub raise_argued : ℕ → ProposedCritique → Text → Memory → Memory
raise_argued hypothesis_id c [] m = m
raise_argued hypothesis_id c (a ∷ argument) m =
    (add_critique hypothesis_id (a ∷ argument) c.alternative_explanation c.severity m).1

abbrev pub raise_one : ℕ → ProposedCritique → Memory → Memory
raise_one hypothesis_id c m = raise_argued hypothesis_id c (strip (without_label c.argument)) m

unfoldable pub raise_all : ℕ → List ProposedCritique → Memory → Memory
raise_all hypothesis_id [] m = m
raise_all hypothesis_id (c ∷ critiques) m =
    raise_all hypothesis_id critiques (raise_one hypothesis_id c m)

-- `review.critiques if round_ == 0 else review.critiques[:1]`
unfoldable pub new_critiques : ℕ → List ProposedCritique → List ProposedCritique
new_critiques zero critiques = critiques
new_critiques (suc round) critiques = take 1 critiques

abbrev pub only_hypothesis : ℕ → Targets
only_hypothesis hypothesis_id = (codes "H", hypothesis_id, hypothesis_node) ∷ []

abbrev pub record_payload : ℕ → Verdict → ℕ → Payload
record_payload hypothesis_id verdict round = record no_payload {
  hypothesis_id = some hypothesis_id;
  verdict = some verdict;
  round = some round;
}

-- What `persist` writes to memory, in its order.
unfoldable pub write_review :
    ℕ → ℕ → Labels → SkepticReview → List GroundedEvidence → List ℕ → Memory → Memory
write_review hypothesis_id round labels answer grounded domain_ids m =
    let settled = settle_all labels answer.resolutions m in
    let raised = raise_all hypothesis_id (new_critiques round answer.critiques) settled in
    let stored = (store_evidence grounded (only_hypothesis hypothesis_id) domain_ids raised).1 in
    assess_confidence hypothesis_id answer.confidence answer.confidence_rationale stored

unfoldable pub persist_review :
    ℕ → ℕ → ℕ → ℕ → Labels → SkepticReview → List GroundedEvidence → List ℕ → Db → Db
persist_review now job_id hypothesis_id round labels answer grounded domain_ids db =
    enqueue_job now record_verdict (record_payload hypothesis_id answer.verdict round) (some job_id)
      (with_memory (write_review hypothesis_id round labels answer grounded domain_ids) db)

abbrev pub open_labels : ℕ → Memory → Labels
open_labels hypothesis_id m =
    labelled (codes "C")
      (map (λ (c : Critique). c.id) (filter (λ c. is_open c.status) (critiques_of hypothesis_id m)))

-- Only the first round searches.
abbrev pub searched : ℕ → List Document → List Document
searched zero documents = documents
searched (suc round) documents = []

abbrev pub persist_grounded :
    ℕ → ℕ → ℕ → ℕ → SkepticReview → Memory → Option Grounding → Option (Db → Db)
persist_grounded now job_id hypothesis_id round answer m none = none
persist_grounded now job_id hypothesis_id round answer m (some g) = some (
    persist_review now job_id hypothesis_id round (open_labels hypothesis_id m) answer g.grounded
      (node_domain_ids hypothesis_id m))

abbrev pub review_live :
    ℕ → ℕ → ℕ → ℕ → List Document → SkepticReview → Memory → Option Hypothesis → Option (Db → Db)
review_live now job_id hypothesis_id round documents answer m none = none
review_live now job_id hypothesis_id round documents answer m (some h) =
    if is_live h.status
    then persist_grounded now job_id hypothesis_id round answer m
        (ground_evidence answer.evidence (searched round documents))
    else some (λ db. db)

-- `Skeptic.prepare`: `job.payload.get("round", 0)` and the hypothesis are its arguments.
unfoldable pub prepare_review :
    ℕ → ℕ → ℕ → ℕ → List Document → SkepticReview → Memory → Option (Db → Db)
prepare_review now job_id hypothesis_id round documents answer m =
    review_live now job_id hypothesis_id round documents answer m (hypothesis hypothesis_id m)
