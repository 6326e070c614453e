-- ===== src/Roles.antt =====
-- What the research roles share (src/collegium/roles/base.py): evidence is kept when its excerpt is
-- found in a document, and stored with links to what it bears on. Reliabilities are in thousandths.
-- A label is turned to upper case in ASCII only. The model's rationales are left out.
pub mod Labels
pub mod Naming
pub mod Skeptic
pub mod Resolver
pub mod Researcher
pub mod Loop
pub mod Storing
pub mod Reviewing
pub mod Quiet
pub mod Claims
pub mod Proposals
pub mod Links
pub mod Mapper
pub mod Mentions
pub mod Mapping
pub mod Ranks
pub mod Steps
pub mod Rounds
pub mod Quoting
pub mod Citing
pub mod Sources
pub mod Supporting
mod Tests
mod MapTests
use collegium.Prelude.{
  ℕ, suc, Bool, true, false, not, ◌&&◌, ◌||◌, Option, none, some, List, [], ◌∷◌, ◌++◌, leb, ◌==◌,
  ◌-◌, if◌then◌else◌, filter, map, any, min, is_some,
}
use collegium.Text.{Text, text_eq, strip, codes}
use collegium.Acquisition.{Document}
use collegium.Grounding.{Located, quoted, unquoted, index_error, locate_excerpt}
use collegium.Reliability.{classify}
use collegium.Memory.{
  Memory, Stance, supports, contradicts, context, NodeKind, hypothesis_node, critique_node,
  observation_node, relationship_node, record_source, add_evidence, tag_domains, link_evidence,
}

-- A model's `Stance`: the label it names, and how the excerpt bears on it.
pub record BearsOn : Type 0 where
  pub hypothesis : Text
  pub stance : Stance

-- `document` is the number cited, from one on.
pub record EvidenceItem : Type 0 where
  pub document : ℕ
  pub excerpt : Text
  pub summary : Text
  pub reliability : ℕ
  pub bears_on : List BearsOn

pub record GroundedEvidence : Type 0 where
  pub item : EvidenceItem
  pub document : Document
  pub excerpt : Text

pub record Grounding : Type 0 where
  pub grounded : List GroundedEvidence
  pub dropped : List Text

abbrev pub no_grounding : Grounding
no_grounding = record { grounded = []; dropped = [] }

abbrev pub flagged_reliability : ℕ
flagged_reliability = 300

abbrev pub upper_code : ℕ → ℕ
upper_code c = if leb 97 c && leb c 122 then c - 32 else c

-- `_label`
unfoldable pub label_of : Text → Text
label_of label = map upper_code (strip label)

abbrev pub is_support : Stance → Bool
is_support supports = true
is_support _ = false

abbrev pub supported_by : List BearsOn → List Text
supported_by [] = []
supported_by (s ∷ bears_on) =
    let rest = supported_by bears_on in
    if is_support s.stance then label_of s.hypothesis ∷ rest else rest

-- `Grounding.supported`, as a list that may repeat a label.
unfoldable pub supported : List GroundedEvidence → List Text
supported [] = []
supported (g ∷ grounded) = supported_by g.item.bears_on ++ supported grounded

abbrev pub numbered : ℕ → List Document → List (ℕ × Document)
numbered n [] = []
numbered n (d ∷ documents) = (n, d) ∷ numbered (suc n) documents

-- `sorted(range(len(documents)), key=lambda i: i != cited)`, counted from one.
unfoldable pub cited_first : ℕ → List Document → List Document
cited_first cited documents =
    let all_documents = numbered 1 documents in
    map (λ d. d.1) (filter (λ d. d.0 == cited) all_documents)
    ++ map (λ d. d.1) (filter (λ d. not (d.0 == cited)) all_documents)

-- Where an excerpt was found, and the words there; or an exception.
pub data Found : Type 0 where
  found : Document → Text → Found
  missing broken : Found

abbrev pub found_in : Document → Located → Found → Found
found_in d (quoted excerpt) later = found d excerpt
found_in d unquoted later = later
found_in d index_error later = broken

abbrev pub first_found : Text → List Document → Found
first_found excerpt [] = missing
first_found excerpt (d ∷ documents) =
    let later = first_found excerpt documents in found_in d (locate_excerpt excerpt d.content) later

-- After an exception nothing more is looked for.
abbrev pub with_found : EvidenceItem → Found → Option Grounding → Option Grounding
with_found item w none = none
with_found item (found d excerpt) (some g) =
    let e : GroundedEvidence = record { item = item; document = d; excerpt = excerpt } in
    some (record g { grounded = g.grounded ++ e ∷ [] })
with_found item missing (some g) = some (record g { dropped = g.dropped ++ item.excerpt ∷ [] })
with_found item broken (some g) = none

-- The loop of `ground_evidence`, from what was kept so far.
abbrev pub ground_more : List EvidenceItem → List Document → Option Grounding → Option Grounding
ground_more [] documents o = o
ground_more (item ∷ items) documents o =
    ground_more items documents
      (with_found item (first_found item.excerpt (cited_first item.document documents)) o)

unfoldable pub ground_evidence : List EvidenceItem → List Document → Option Grounding
ground_evidence items documents = ground_more items documents (some no_grounding)

-- `resolved`: what each label of the prompt stands for.
abbrev pub Targets : Type 0
Targets = List (Text × ℕ × NodeKind)

abbrev pub target_of : Text → Targets → Option (ℕ × NodeKind)
target_of label [] = none
target_of label ((known, target, kind) ∷ targets) =
    let later = target_of label targets in
    if text_eq known label then some (target, kind) else later

abbrev pub is_resolved : Targets → BearsOn → Bool
is_resolved targets s = is_some (target_of (label_of s.hypothesis) targets)

pub record EvidenceOutcome : Type 0 where
  pub stored : ℕ
  pub unlinked : ℕ
  pub touched : List ℕ
  pub evidence_ids : List ℕ

abbrev pub no_outcome : EvidenceOutcome
no_outcome = record { stored = 0; unlinked = 0; touched = []; evidence_ids = [] }

abbrev pub is_in : List ℕ → ℕ → Bool
is_in ids n = any (λ k. k == n) ids

-- set.add
abbrev pub add_id : ℕ → List ℕ → List ℕ
add_id n ids = if is_in ids n then ids else ids ++ n ∷ []

abbrev pub touch : NodeKind → ℕ → List ℕ → List ℕ
touch hypothesis_node target touched = add_id target touched
touch critique_node target touched = touched
touch observation_node target touched = touched
touch relationship_node target touched = touched

-- `linked`, `outcome.touched` and memory, in the inner loop of `store_evidence`.
pub record Linking : Type 0 where
  pub linked : List ℕ
  pub touched : List ℕ
  pub memory : Memory

abbrev pub link_to : ℕ → Stance → Option (ℕ × NodeKind) → Linking → Linking
link_to evidence_id stance none x = x
link_to evidence_id stance (some (target, kind)) x =
    let after : Linking = record {
      linked = add_id target x.linked;
      touched = touch kind target x.touched;
      memory = link_evidence evidence_id target kind stance x.memory;
    } in
    if is_in x.linked target then x else after

abbrev pub link_stances : ℕ → Targets → List BearsOn → Linking → Linking
link_stances evidence_id targets [] x = x
link_stances evidence_id targets (s ∷ bears_on) x =
    link_stances evidence_id targets bears_on
      (link_to evidence_id s.stance (target_of (label_of s.hypothesis) targets) x)

abbrev pub is_flagged : Document → Bool
is_flagged d = elim d.signals [ [] ↦ false | s ∷ signals ↦ true ]

-- The model's score, below what the kind of source allows.
abbrev pub capped : GroundedEvidence → ℕ
capped g =
    let kept = min g.item.reliability (classify g.document.url).1 in
    if is_flagged g.document then min kept flagged_reliability else kept

abbrev pub after_links : ℕ → EvidenceOutcome → Linking → EvidenceOutcome × Memory
after_links evidence_id o x = (
  record o {
    stored = suc o.stored;
    touched = x.touched;
    evidence_ids = o.evidence_ids ++ evidence_id ∷ [];
  },
  x.memory,
)

abbrev pub with_links :
    ℕ → List BearsOn → Targets → List ℕ → EvidenceOutcome → Memory → EvidenceOutcome × Memory
with_links evidence_id stances targets domain_ids o m = after_links evidence_id o (
    link_stances evidence_id targets stances
      (record { linked = []; touched = o.touched; memory = tag_domains evidence_id domain_ids m }))

abbrev pub with_evidence : GroundedEvidence → ℕ × Memory → ℕ × Memory
with_evidence g (source_id, m) = add_evidence g.item.summary g.excerpt source_id (some (capped g)) m

abbrev pub store_linked :
    GroundedEvidence
    → List BearsOn
    → Targets
    → List ℕ
    → EvidenceOutcome
    → Memory
    → EvidenceOutcome × Memory
store_linked g [] targets domain_ids o m = (record o { unlinked = suc o.unlinked }, m)
store_linked g (s ∷ stances) targets domain_ids o m =
    let d = g.document in
    let (evidence_id, after) = with_evidence g (record_source d.url (some d.title) d.content m) in
    with_links evidence_id (s ∷ stances) targets domain_ids o after

abbrev pub store_one :
    GroundedEvidence → Targets → List ℕ → EvidenceOutcome × Memory → EvidenceOutcome × Memory
store_one g targets domain_ids (o, m) =
    store_linked g (filter (is_resolved targets) g.item.bears_on) targets domain_ids o m

-- The loop of `store_evidence`.
abbrev pub store_more :
    List GroundedEvidence → Targets → List ℕ → EvidenceOutcome × Memory → EvidenceOutcome × Memory
store_more [] targets domain_ids x = x
store_more (g ∷ grounded) targets domain_ids x =
    store_more grounded targets domain_ids (store_one g targets domain_ids x)

unfoldable pub store_evidence :
    List GroundedEvidence → Targets → List ℕ → Memory → EvidenceOutcome × Memory
store_evidence grounded targets domain_ids m =
    store_more grounded targets domain_ids (no_outcome, m)
