-- ===== src/Roles/Loop.antt =====
-- The loop of research, review, verdict and resolution (`ROLES` in src/collegium/roles/__init__.py,
-- as far as the five jobs whose follow-ups lead to each other, and the mapping that they start). A job's payload is read the way that
-- each `prepare` reads it; `answers` is what the search and the model say.
use collegium.Prelude.{ℕ, Option, none, some, List, [], or_default}
use collegium.Acquisition.{Document}
use collegium.Jobs.{
  map_entities, Kind, research, review, record_verdict, resolve, corroborate, Payload, JobRow,
}
use collegium.Memory.{Memory}
use collegium.Db.{Db}
use collegium.Historian.{persist, Note}
use collegium.Roles.{EvidenceItem}
use collegium.Roles.Skeptic.{SkepticReview, prepare_review}
use collegium.Roles.Resolver.{prepare_resolve, prepare_corroborate}
use collegium.Roles.Researcher.{ResearchFindings, prepare_research}
use collegium.Roles.Mapper.{MentionedEntity, prepare_map}

pub record Answers : Type 0 where
  pub documents : List Document
  pub evidence : List EvidenceItem
  pub review : SkepticReview
  pub findings : ResearchFindings
  pub entities : List MentionedEntity

-- `job.payload["hypothesis_id"]` and the like: a missing key is an exception.
abbrev pub required {ℓ} : {A : Type ℓ} → Option A → (A → Option Db) → Option Db
required none rest = none
required (some a) rest = rest a

abbrev pub committed : Option (Db → Db) → Db → Option Db
committed none db = none
committed (some change) db = some (change db)

abbrev pub without_notes : Option (Db × List Note) → Option Db
without_notes none = none
without_notes (some x) = some x.0

-- A job of the loop, prepared from `read` and committed to `db`. The other kinds are not run here.
unfoldable pub perform_as : Kind → Payload → ℕ → ℕ → Answers → Memory → Db → Option Db
perform_as research p now job_id answers read db =
    required p.observation_id
      (λ o. committed (prepare_research now job_id o answers.documents answers.findings read) db)
perform_as corroborate p now job_id answers read db =
    required p.hypothesis_id
      (λ h. committed (prepare_corroborate now job_id h answers.documents answers.evidence read) db)
perform_as resolve p now job_id answers read db = required p.hypothesis_id (λ h.
    committed
      (prepare_resolve now job_id h (or_default p.round 1) answers.documents answers.evidence read)
      db)
perform_as review p now job_id answers read db = required p.hypothesis_id (λ h.
    committed
      (prepare_review now job_id h (or_default p.round 0) answers.documents answers.review read) db)
perform_as record_verdict p now job_id answers read db = required p.hypothesis_id (λ h.
    required p.verdict (λ v. without_notes (persist now job_id h v (or_default p.round 0) db)))
perform_as map_entities p now job_id answers read db =
    required p.observation_id
      (λ o. committed (prepare_map o (or_default p.evidence_ids []) answers.entities read) db)
perform_as _ p now job_id answers read db = none

abbrev pub perform : ℕ → JobRow → Answers → Memory → Db → Option Db
perform now job answers read db = perform_as job.kind job.payload now job.id answers read db
