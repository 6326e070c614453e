-- ===== src/Historian.antt =====
-- The Historian (src/collegium/roles/historian.py): the fixed rules by which a hypothesis's status
-- changes, and the one transaction that applies them. Confidences are in thousandths.
pub mod Rules
pub mod Records
pub mod Acceptance
pub mod Rounds
mod Tests
use text.Mathlib.Text.{◌==◌ as str_eq}
use collegium.Prelude.{
  ℕ, suc, ◌+◌, Bool, true, false, not, ◌&&◌, ◌||◌, Option, none, some, List, [], ◌∷◌, ◌++◌, leb,
  ltb, if◌then◌else◌, any, filter, length, or_default, String, map,
}
use collegium.Text.{Text, codes, remove_prefix, distinct}
use collegium.Text.Url.{hostname}
use collegium.Jobs.{resolve, announce, Verdict, reject, Reason, Payload, no_payload, Job, JobRow}
use collegium.Memory.{
  HypothesisStatus, under_review, accepted, rejected, superseded, retired, Critique, is_open,
  is_upheld, is_live, same_status, Hypothesis, Domain, Memory, domain, node_domain_ids, hypothesis,
  current_confidence, critiques_of, supporting_source_uris, refined_hypotheses,
  set_hypothesis_status,
}
use collegium.Db.{Db, enqueue_job, with_memory}

-- ACCEPT_AT = 0.6 and REJECT_AT = 0.25
abbrev pub accept_at : ℕ
accept_at = 600

abbrev pub reject_at : ℕ
reject_at = 250

abbrev pub min_independent_sources : ℕ
min_independent_sources = 2

abbrev pub blocking_severity : ℕ
blocking_severity = 3

abbrev pub fatal_severity : ℕ
fatal_severity = 5

abbrev pub max_lifetime_critiques : ℕ
max_lifetime_critiques = 8

-- roles/resolver.py
abbrev pub max_rounds : ℕ
max_rounds = 2

abbrev pub is_blocking : Critique → Bool
is_blocking c = (is_open c.status || is_upheld c.status) && leb blocking_severity c.severity

abbrev pub blocking : List Critique → List Critique
blocking critiques = filter is_blocking critiques

abbrev pub is_fatal : Critique → Bool
is_fatal c = is_upheld c.status && leb fatal_severity c.severity

abbrev pub is_reject : Verdict → Bool
is_reject reject = true
is_reject _ = false

abbrev pub is_empty : {A : Type 0} → List A → Bool
is_empty [] = true
is_empty (x ∷ xs) = false

unfoldable pub decide : Verdict → Option ℕ → ℕ → List Critique → HypothesisStatus
decide verdict none independent_sources critiques = under_review
decide verdict (some confidence) independent_sources critiques =
    if is_reject verdict || leb confidence reject_at || any is_fatal critiques
    then rejected
    else if leb accept_at confidence
        && (leb min_independent_sources independent_sources && is_empty (blocking critiques))
    then accepted
    else under_review

-- The site a source belongs to: its host without "www.", or the address itself.
unfoldable pub site : Text → Text
site uri = remove_prefix (codes "www.") (or_default (hostname uri) uri)

-- `{site(u) for u in supporting_source_uris}`
abbrev pub sites_of : ℕ → Memory → List Text
sites_of hypothesis_id m = distinct (map site (supporting_source_uris hypothesis_id m))

abbrev pub lists_moltbook : List String → Bool
lists_moltbook names = any (λ n. str_eq n "moltbook") names

abbrev pub domain_reads_moltbook : Memory → ℕ → Bool
domain_reads_moltbook m domain_id = elim (domain domain_id m) [
  | none ↦ false
  | some d ↦ lists_moltbook d.discovery_sources
]

unfoldable pub reads_moltbook : ℕ → Memory → Bool
reads_moltbook hypothesis_id m = any (domain_reads_moltbook m) (node_domain_ids hypothesis_id m)

-- What the run's notes say, one constructor for each sentence.
pub data Note : Type 0 where
  unchanged : HypothesisStatus → Note
  moved : HypothesisStatus → HypothesisStatus → Note
  sent_for_round : ℕ → Note
  retired_after : ℕ → ℕ → Note
  still_open : Note
  announcing_retirement : Note
  superseding : ℕ → Note
  announcing_superseded : ℕ → Note

abbrev pub resolve_payload : ℕ → ℕ → Payload
resolve_payload hypothesis_id round = record no_payload {
  hypothesis_id = some hypothesis_id;
  round = some round;
}

abbrev pub retired_payload : ℕ → Payload
retired_payload hypothesis_id = record no_payload {
  hypothesis_id = some hypothesis_id;
  reason = some Reason.retired;
}

abbrev pub superseded_payload : ℕ → ℕ → Payload
superseded_payload old_id by = record no_payload {
  hypothesis_id = some old_id;
  reason = some Reason.superseded;
  superseded_by = some by;
}

-- The state that the rules work on: the status so far, whether the hypothesis is retired now, the
-- database and the notes.
pub record Ruling : Type 0 where
  pub status : HypothesisStatus
  pub retiring : Bool
  pub db : Db
  pub notes : List Note

abbrev pub open_blockers : List Critique → List Critique
open_blockers critiques = filter (λ c. is_open c.status) (blocking critiques)

-- `if status == "under_review" and open_blockers: …`
unfoldable pub settle_open : ℕ → ℕ → ℕ → ℕ → List Critique → HypothesisStatus → Db → Ruling
settle_open now job_id hypothesis_id round critiques status db =
    let kept : Ruling = record { status = status; retiring = false; db = db; notes = [] } in
    let again : Ruling = record {
      status = status;
      retiring = false;
      db = enqueue_job now resolve (resolve_payload hypothesis_id (suc round)) (some job_id) db;
      notes = sent_for_round (suc round) ∷ [];
    } in
    let gone : Ruling = record {
      status = retired;
      retiring = true;
      db = db;
      notes = retired_after (length (open_blockers critiques)) (length critiques) ∷ [];
    } in
    let waiting : Ruling = record {
      status = status;
      retiring = false;
      db = db;
      notes = still_open ∷ [];
    } in
    if same_status status under_review && not (is_empty (open_blockers critiques))
    then if ltb round max_rounds
      then again
      else if leb max_lifetime_critiques (length critiques)
      then gone
      else waiting
    else kept

-- `if status != h["status"]: …`, and the announcement of a retirement.
unfoldable pub write_status : ℕ → ℕ → Hypothesis → Ruling → Ruling
write_status now job_id h r =
    let written =
      if same_status r.status h.status
      then r.db
      else with_memory (set_hypothesis_status h.id r.status none) r.db in
    if r.retiring && reads_moltbook h.id written.memory
    then record r {
      db = enqueue_job now announce (retired_payload h.id) (some job_id) written;
      notes = r.notes ++ announcing_retirement ∷ [];
    }
    else record r { db = written }

-- The body of the loop over the hypotheses that the accepted one refines.
unfoldable pub supersede : ℕ → ℕ → ℕ → ℕ → Db × List Note → Db × List Note
supersede now job_id hypothesis_id old_id (db, notes) = elim (hypothesis old_id db.memory) [
  | none ↦ (db, notes)
  | some old ↦
      let db' = with_memory (set_hypothesis_status old_id superseded (some hypothesis_id)) db in
      let told = notes ++ superseding old_id ∷ [] in
      if not (is_live old.status)
      then (db, notes)
      else if same_status old.status accepted && reads_moltbook old_id db'.memory
      then (
        enqueue_job now announce (superseded_payload old_id hypothesis_id) (some job_id) db',
        told ++ announcing_superseded old_id ∷ [],
      )
      else (db', told)
]

unfoldable pub supersede_all : ℕ → ℕ → ℕ → List ℕ → Db × List Note → Db × List Note
supersede_all now job_id hypothesis_id [] acc = acc
supersede_all now job_id hypothesis_id (old_id ∷ ids) acc =
    supersede_all now job_id hypothesis_id ids (supersede now job_id hypothesis_id old_id acc)

abbrev pub ruling_on : ℕ → Verdict → Hypothesis → Memory → HypothesisStatus
ruling_on hypothesis_id verdict h m =
    decide verdict (current_confidence hypothesis_id m) (length (sites_of hypothesis_id m))
      (critiques_of hypothesis_id m)

-- `if status == "accepted": …`, the last step.
unfoldable pub finish : ℕ → ℕ → ℕ → List Note → Ruling → Db × List Note
finish now job_id hypothesis_id notes ruled =
    if same_status ruled.status accepted
    then supersede_all now job_id hypothesis_id (refined_hypotheses hypothesis_id ruled.db.memory)
        (ruled.db, notes ++ ruled.notes)
    else (ruled.db, notes ++ ruled.notes)

-- The rest of `persist`, for a hypothesis that was found and is live.
unfoldable pub apply_rules : ℕ → ℕ → ℕ → Verdict → ℕ → Hypothesis → Db → Db × List Note
apply_rules now job_id hypothesis_id verdict round h db =
    let status = ruling_on hypothesis_id verdict h db.memory in
    finish now job_id hypothesis_id (moved h.status status ∷ []) (
      write_status now job_id h (
        settle_open now job_id hypothesis_id round (critiques_of hypothesis_id db.memory) status
          db))

-- `persist` of a "record" job; `none` is the LookupError for a hypothesis that is not there.
unfoldable pub persist : ℕ → ℕ → ℕ → Verdict → ℕ → Db → Option (Db × List Note)
persist now job_id hypothesis_id verdict round db = elim (hypothesis hypothesis_id db.memory) [
  | none ↦ none
  | some h ↦ some (
      if is_live h.status
      then apply_rules now job_id hypothesis_id verdict round h db
      else (db, unchanged h.status ∷ []))
]
