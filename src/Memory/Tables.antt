-- ===== src/Memory/Tables.antt =====
-- The rows of institutional memory (db/migrations).
use collegium.Prelude.{ℕ, Bool, true, false, Option, List, [], String, ◌==◌}
use collegium.Text.{Text, lower, is_space}

pub data DomainStatus : Type 0 where
  active paused retired : DomainStatus

pub record Domain : Type 0 where
  pub id : ℕ
  pub slug : String
  pub name : String
  pub status : DomainStatus
  pub discovery_sources : List String

pub data HypothesisStatus : Type 0 where
  proposed under_review accepted rejected superseded retired : HypothesisStatus

pub record Hypothesis : Type 0 where
  pub id : ℕ
  pub statement : Text
  pub rationale : Option Text
  pub status : HypothesisStatus
  pub superseded_by : Option ℕ

pub data CritiqueStatus : Type 0 where
  open_ upheld addressed dismissed : CritiqueStatus

pub record Critique : Type 0 where
  pub id : ℕ
  pub target_id : ℕ
  pub argument : Text
  pub alternative_explanation : Option String
  pub severity : ℕ
  pub status : CritiqueStatus
  pub resolution : Option String

-- A row of confidence_assessments; the table is kept newest first.
pub record Assessment : Type 0 where
  pub target_id : ℕ
  pub confidence : ℕ
  pub rationale : String

pub record Source : Type 0 where
  pub id : ℕ
  pub uri : Text
  pub title : Option Text
  pub content : Option Text
  -- metadata.moltbook_author
  pub author : Option Text

pub record Evidence : Type 0 where
  pub id : ℕ
  pub summary : Text
  pub excerpt : Text
  pub source_id : Option ℕ
  pub reliability : Option ℕ

pub data ObservationStatus : Type 0 where
  observation_proposed investigating observation_accepted dismissed_observation : ObservationStatus

pub record Observation : Type 0 where
  pub id : ℕ
  pub statement : Text
  pub source_id : Option ℕ
  pub recommendation : Option Text
  pub status : ObservationStatus

pub record Entity : Type 0 where
  pub id : ℕ
  pub name : Text
  pub entity_type : Text
  pub aliases : List Text
  -- status = 'active'
  pub active : Bool

pub data Stance : Type 0 where
  supports contradicts context : Stance

pub data NodeKind : Type 0 where
  hypothesis_node critique_node observation_node relationship_node : NodeKind

pub record EvidenceLink : Type 0 where
  pub evidence_id : ℕ
  pub target_id : ℕ
  pub target_kind : NodeKind
  pub stance : Stance
  pub retracted : Bool

pub data Predicate : Type 0 where
  refines derived_from concerns investigates mentions cites : Predicate

pub record Relationship : Type 0 where
  pub id : ℕ
  pub subject_id : ℕ
  pub predicate : Predicate
  pub object_id : ℕ
  pub retracted : Bool

-- What the database's locale decides: lower(), and the characters that \s matches.
pub record Locale : Type 0 where
  pub lower : Text → Text
  pub is_space : ℕ → Bool

pub record Memory : Type 0 where
  pub locale : Locale
  pub next_id : ℕ
  pub domains : List Domain
  pub node_domains : List (ℕ × ℕ)
  pub observations : List Observation
  pub entities : List Entity
  pub hypotheses : List Hypothesis
  pub critiques : List Critique
  pub assessments : List Assessment
  pub sources : List Source
  pub evidence : List Evidence
  pub evidence_links : List EvidenceLink
  pub relationships : List Relationship

abbrev pub no_memory : Memory
no_memory = record {
  locale = record { lower = lower; is_space = is_space };
  next_id = 0;
  domains = [];
  node_domains = [];
  observations = [];
  entities = [];
  hypotheses = [];
  critiques = [];
  assessments = [];
  sources = [];
  evidence = [];
  evidence_links = [];
  relationships = [];
}

-- LIVE_HYPOTHESIS_STATUSES
abbrev pub is_live : HypothesisStatus → Bool
is_live proposed = true
is_live under_review = true
is_live accepted = true
is_live _ = false

abbrev pub is_open : CritiqueStatus → Bool
is_open open_ = true
is_open _ = false

abbrev pub is_upheld : CritiqueStatus → Bool
is_upheld upheld = true
is_upheld _ = false

abbrev pub is_support : Stance → Bool
is_support supports = true
is_support _ = false

abbrev pub is_active : DomainStatus → Bool
is_active active = true
is_active _ = false

abbrev pub predicate_code : Predicate → ℕ
predicate_code refines = 0
predicate_code derived_from = 1
predicate_code concerns = 2
predicate_code investigates = 3
predicate_code mentions = 4
predicate_code cites = 5

abbrev pub same_predicate : Predicate → Predicate → Bool
same_predicate p q = predicate_code p == predicate_code q

abbrev pub is_refines : Predicate → Bool
is_refines refines = true
is_refines _ = false

-- A number for each status, to compare statuses by.
abbrev pub status_code : HypothesisStatus → ℕ
status_code proposed = 0
status_code under_review = 1
status_code accepted = 2
status_code rejected = 3
status_code superseded = 4
status_code retired = 5

abbrev pub same_status : HypothesisStatus → HypothesisStatus → Bool
same_status s t = status_code s == status_code t
