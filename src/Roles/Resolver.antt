-- ===== src/Roles/Resolver.antt =====
-- The Researcher's two jobs for a hypothesis that is in dispute or short of support
-- (src/collegium/roles/resolver.py and corroborator.py). What the search and the model answer is
-- given; an exception is `none`.
use collegium.Prelude.{ℕ, not, ◌||◌, Option, none, some, List, [], ◌∷◌, if◌then◌else◌, map, filter}
use collegium.Text.{Text, codes, text_in}
use collegium.Acquisition.{Document}
use collegium.Jobs.{review, Payload, no_payload}
use collegium.Memory.{
  Memory, Critique, is_live, Hypothesis, hypothesis, open_critiques, node_domain_ids,
  hypothesis_node, critique_node, evidence_uris,
}
use collegium.Db.{Db, enqueue_job, with_memory}
use collegium.Historian.{site, is_empty}
use collegium.Roles.{
  EvidenceItem, GroundedEvidence, Grounding, ground_evidence, store_evidence, Targets,
}
use collegium.Roles.Labels.{labelled, as_targets}

abbrev pub review_payload : ℕ → ℕ → Payload
review_payload hypothesis_id round = record no_payload {
  hypothesis_id = some hypothesis_id;
  round = some round;
}

-- Both transactions: the evidence, and the Skeptic's review of this round.
unfoldable pub persist_evidence : ℕ → ℕ → ℕ → ℕ → Targets → List ℕ → List GroundedEvidence → Db → Db
persist_evidence now job_id hypothesis_id round targets domain_ids grounded db =
    enqueue_job now review (review_payload hypothesis_id round) (some job_id)
      (with_memory (λ m. (store_evidence grounded targets domain_ids m).1) db)

-- The hypothesis as H, and its open critiques by the letter C and a number.
abbrev pub resolve_targets : ℕ → Memory → Targets
resolve_targets hypothesis_id m =
    (codes "H", hypothesis_id, hypothesis_node)
    ∷ as_targets critique_node
        (labelled (codes "C") (map (λ (c : Critique). c.id) (open_critiques hypothesis_id m)))

abbrev pub persist_quotes : ℕ → ℕ → ℕ → ℕ → Targets → Memory → Option Grounding → Option (Db → Db)
persist_quotes now job_id hypothesis_id round targets m none = none
persist_quotes now job_id hypothesis_id round targets m (some g) = some (
    persist_evidence now job_id hypothesis_id round targets (node_domain_ids hypothesis_id m)
      g.grounded)

-- No documents: NothingToWorkWith.
abbrev pub with_documents :
    ℕ → ℕ → ℕ → ℕ → Targets → List Document → List EvidenceItem → Memory → Option (Db → Db)
with_documents now job_id hypothesis_id round targets [] answer m = none
with_documents now job_id hypothesis_id round targets (d ∷ documents) answer m =
    persist_quotes now job_id hypothesis_id round targets m (ground_evidence answer (d ∷ documents))

abbrev pub resolve_live :
    ℕ
    → ℕ
    → ℕ
    → ℕ
    → List Document
    → List EvidenceItem
    → Memory
    → Option Hypothesis
    → Option (Db → Db)
resolve_live now job_id hypothesis_id round documents answer m none = none
resolve_live now job_id hypothesis_id round documents answer m (some h) =
    if not (is_live h.status) || is_empty (open_critiques hypothesis_id m)
    then some (λ db. db)
    else with_documents now job_id hypothesis_id round (resolve_targets hypothesis_id m) documents
        answer m

-- `Resolver.prepare`: `job.payload.get("round", 1)` and the hypothesis are its arguments.
unfoldable pub prepare_resolve :
    ℕ → ℕ → ℕ → ℕ → List Document → List EvidenceItem → Memory → Option (Db → Db)
prepare_resolve now job_id hypothesis_id round documents answer m =
    resolve_live now job_id hypothesis_id round documents answer m (hypothesis hypothesis_id m)

-- The sites that the hypothesis's evidence cites.
abbrev pub cited_sites : ℕ → Memory → List Text
cited_sites hypothesis_id m = map site (evidence_uris hypothesis_id m)

abbrev pub independent : ℕ → Memory → List Document → List Document
independent hypothesis_id m documents =
    filter (λ d. not (text_in (cited_sites hypothesis_id m) (site d.url))) documents

abbrev pub corroborate_live :
    ℕ → ℕ → ℕ → List Document → List EvidenceItem → Memory → Option Hypothesis → Option (Db → Db)
corroborate_live now job_id hypothesis_id documents answer m none = none
corroborate_live now job_id hypothesis_id documents answer m (some h) =
    let targets : Targets = (codes "H", hypothesis_id, hypothesis_node) ∷ [] in
    if not (is_live h.status)
    then some (λ db. db)
    else with_documents now job_id hypothesis_id 0 targets (independent hypothesis_id m documents)
        answer m

-- `Corroborator.prepare`
unfoldable pub prepare_corroborate :
    ℕ → ℕ → ℕ → List Document → List EvidenceItem → Memory → Option (Db → Db)
prepare_corroborate now job_id hypothesis_id documents answer m =
    corroborate_live now job_id hypothesis_id documents answer m (hypothesis hypothesis_id m)
