-- ===== src/Owner/Deciding.antt =====
-- How the owner resolves a decision (`resolve_decision` in src/collegium/owner.py).
use collegium.Prelude.{
  ℕ, Bool, true, false, not, ◌&&◌, Option, none, some, [], ◌∷◌, ◌++◌, ◌==◌, if◌then◌else◌, any,
  find, map_option, update_where, count_where,
}
use collegium.Text.{Text, text_eq}
use collegium.Memory.{Memory, Predicate, concerns, add_critique, set_critique_status, upheld}
use collegium.Db.{with_memory}
use collegium.Owner.Tables.{
  Topic, source_topic, post_topic, reply_topic, DecisionStatus, proposed, approved_by_owner,
  rejected_by_owner, Details, Decision, ProgramStatus, program_active, program_closed, Program,
  feed_active, Feed, Desk, Edits, Answer, refused, done, and_then, missing_key, no_longer_waiting,
}
use collegium.Owner.Queueing.{clean, queue_post, queue_reply}

abbrev pub is_proposed : DecisionStatus → Bool
is_proposed proposed = true
is_proposed _ = false

abbrev pub has_feed : ℕ → Text → Feed → Bool
has_feed domain_id url f = f.domain_id == domain_id && text_eq f.url url

-- INSERT INTO approved_sources … ON CONFLICT (domain_id, url) DO NOTHING
abbrev pub add_feed_of : Option ℕ → Option Text → Option Text → Desk → Answer Desk
add_feed_of none url title d = refused missing_key
add_feed_of (some domain_id) none title d = refused missing_key
add_feed_of (some domain_id) (some url) title d =
    let f : Feed = record {
      domain_id = domain_id;
      url = url;
      title = title;
      status = feed_active;
    } in
    let feeds = if any (has_feed domain_id url) d.feeds then d.feeds else d.feeds ++ f ∷ [] in
    done (record d { feeds = feeds })

abbrev pub add_feed : Details → Desk → Answer Desk
add_feed details = add_feed_of details.domain_id details.feed_url details.title

abbrev pub given : Option Text → Option Text → Option Text
given none old = old
given (some new) old = some new

-- `{**details, **(post or {})}`
abbrev pub edited : Edits → Details → Details
edited edits details = record details {
  title = given edits.title details.title;
  content = given edits.content details.content;
  submolt = given edits.submolt details.submolt;
}

-- What approving a decision of this topic does.
abbrev pub take_effect : ℕ → ℕ → Topic → Details → Edits → Desk → Answer Desk
take_effect now decision_id source_topic details edits d = add_feed details d
take_effect now decision_id post_topic details edits d =
    queue_post now decision_id (edited edits details) d
take_effect now decision_id reply_topic details edits d =
    queue_reply now decision_id (edited edits details) d
take_effect now decision_id _ details edits d = done d

abbrev pub is_concerns : Predicate → Bool
is_concerns concerns = true
is_concerns _ = false

abbrev pub concerns_program : ℕ → Memory → Program → Bool
concerns_program decision_id m p =
    any
      (λ r.
        r.subject_id == decision_id
        && is_concerns r.predicate
        && not r.retracted
        && r.object_id == p.id)
      m.relationships

-- The decision opens or closes the programs that it concerns; the name of the first one.
unfoldable pub settle_programs : ℕ → ProgramStatus → Desk → Option Text × Desk
settle_programs decision_id status d =
    let here = concerns_program decision_id d.db.memory in
    (
      map_option (λ p. p.name) (find here d.programs),
      record d { programs = update_where here (λ p. record p { status = status }) d.programs },
    )

abbrev pub Resolution : Type 0
Resolution = Option Text × Desk

-- A rejection with a reason leaves an upheld critique of the proposal.
abbrev pub keep_reason : ℕ → Bool → Text → Desk → Desk
keep_reason decision_id approving [] d = d
keep_reason decision_id true (c ∷ s) d = d
keep_reason decision_id false (c ∷ s) d =
    let (critique_id, m) = add_critique decision_id (c ∷ s) none 3 d.db.memory in
    let settled =
      set_critique_status critique_id upheld "The owner's reason for rejecting the proposal." m in
    record d { db = with_memory (λ _. settled) d.db }

abbrev pub mark_resolved : DecisionStatus → Decision → Decision
mark_resolved status decision = record decision { status = status }

abbrev pub effect_of : ℕ → ℕ → Bool → Option Decision → Edits → Desk → Answer Desk
effect_of now decision_id approving none edits d = refused missing_key
effect_of now decision_id false (some decision) edits d = done d
effect_of now decision_id true (some decision) edits d =
    take_effect now decision_id decision.topic decision.details edits d

abbrev pub ruling_status : Bool → DecisionStatus
ruling_status approving = if approving then approved_by_owner else rejected_by_owner

abbrev pub program_status : Bool → ProgramStatus
program_status approving = if approving then program_active else program_closed

abbrev pub waits : ℕ → Decision → Bool
waits decision_id x = x.id == decision_id && is_proposed x.status

abbrev pub with_ruling : ℕ → Bool → Desk → Desk
with_ruling decision_id approving d = record d {
  decisions =
      update_where (waits decision_id) (mark_resolved (ruling_status approving)) d.decisions;
}

-- After the UPDATE has touched a row.
unfoldable pub resolve_waiting : ℕ → ℕ → Bool → Text → Edits → Desk → Answer Resolution
resolve_waiting now decision_id approving reason edits d =
    let ruled = keep_reason decision_id approving reason (with_ruling decision_id approving d) in
    and_then
      (effect_of now decision_id approving (find (λ x. x.id == decision_id) ruled.decisions) edits
        ruled)
      (λ d'. done (settle_programs decision_id (program_status approving) d'))

-- `resolve_decision`, of the two statuses that it accepts: approved or not.
unfoldable pub resolve_decision : ℕ → ℕ → Bool → Option Text → Edits → Desk → Answer Resolution
resolve_decision now decision_id approving reason edits d =
    if count_where (waits decision_id) d.decisions == 0
    then refused no_longer_waiting
    else resolve_waiting now decision_id approving (clean reason) edits d
