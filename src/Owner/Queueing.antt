-- ===== src/Owner/Queueing.antt =====
-- What approving a post, a reply or a vote puts into the outbox (`_queue_post`, `_queue_reply` and
-- `_queue_vote` in src/collegium/owner.py).
use collegium.Prelude.{
  ℕ, suc, Bool, true, false, ◌&&◌, Option, none, some, List, [], ◌∷◌, ◌++◌, ◌==◌, if◌then◌else◌,
  any, or_default, String,
}
use collegium.Text.{Text, codes, text_eq, strip, unix_lines}
use collegium.Community.{Problem, problems, reply_problems}
use collegium.Jobs.{scout, Payload, no_payload, enqueue, JobRow, is_live, Kind, kind_code}
use collegium.Db.{Db}
use collegium.Outbox.{post, comment, vote, PostStatus, Post, is_vote, withdrawn, failed}
use collegium.Owner.Tables.{
  vote_topic, Details, no_details, Decision, approved_by_owner, Desk, Answer, refused, done,
  bad_text, missing_key, with_outbox, insert_post,
}

-- NOT IN ('failed', 'withdrawn')
abbrev pub is_standing : PostStatus → Bool
is_standing failed = false
is_standing withdrawn = false
is_standing _ = true

-- coalesce(reply_to_comment, '')
abbrev pub same_target : Text → Option Text → Post → Bool
same_target post_id comment_id p =
    text_eq p.reply_to_post post_id
    && text_eq (or_default p.reply_to_comment []) (or_default comment_id [])

abbrev pub is_vote_for : Text → Option Text → Post → Bool
is_vote_for post_id comment_id p =
    is_vote p.kind && same_target post_id comment_id p && is_standing p.status

abbrev pub vote_decision : ℕ → String → Text → Option Text → Decision
vote_decision decision_id why post_id comment_id = record {
  id = decision_id;
  topic = vote_topic;
  status = approved_by_owner;
  rationale = some why;
  details = record no_details { reply_to_post = some post_id; reply_to_comment = comment_id };
}

-- memory.add_decision with decided=True
abbrev pub add_vote_decision : String → Text → Option Text → Desk → ℕ × Desk
add_vote_decision why post_id comment_id d = (
  d.next_id,
  record d {
    next_id = suc d.next_id;
    decisions = d.decisions ++ vote_decision d.next_id why post_id comment_id ∷ [];
  },
)

abbrev pub vote_for : Text → Option Text → Option ℕ → Option ℕ → Post → Post
vote_for post_id comment_id domain_id about_id p = record p {
  domain_id = domain_id;
  about_id = about_id;
  reply_to_post = post_id;
  reply_to_comment = comment_id;
}

-- `_queue_vote`: false, and nothing changes, if there is a vote already.
unfoldable pub queue_vote :
    ℕ → Text → Option Text → Option ℕ → Option ℕ → String → Desk → Bool × Desk
queue_vote now post_id comment_id domain_id about_id why d =
    let (decision_id, d') = add_vote_decision why post_id comment_id d in
    let inserted =
      insert_post now vote decision_id (vote_for post_id comment_id domain_id about_id) in
    if any (is_vote_for post_id comment_id) d.outbox.posts
    then (false, d)
    else (true, with_outbox inserted d')

abbrev pub clean : Option Text → Text
clean text = strip (or_default text [])

abbrev pub clean_content : Option Text → Text
clean_content text = strip (unix_lines (or_default text []))

abbrev pub as_post : Details → Post → Post
as_post details p = record p {
  domain_id = details.domain_id;
  about_id = details.hypothesis_id;
  submolt = clean details.submolt;
  title = clean details.title;
  content = clean_content details.content;
}

-- A list of problems refuses, with the problems.
abbrev pub unless : {A : Type 0} → List Problem → Answer A → Answer A
unless [] answer = answer
unless (p ∷ ps) answer = refused (bad_text (p ∷ ps))

-- `_queue_post`
unfoldable pub queue_post : ℕ → ℕ → Details → Desk → Answer Desk
queue_post now decision_id details d =
    unless (problems (clean details.title) (clean_content details.content) (clean details.submolt))
      (done (with_outbox (insert_post now post decision_id (as_post details)) d))

abbrev pub as_reply : Details → Text → Post → Post
as_reply details post_id p = record p {
  domain_id = details.domain_id;
  about_id = details.observation_id;
  reply_to_post = post_id;
  reply_to_comment = details.reply_to_comment;
  content = clean_content details.content;
}

abbrev pub is_scouting : Text → JobRow → Bool
is_scouting subject r =
    kind_code r.kind == kind_code scout
    && is_live r.status
    && elim r.payload.focus [ none ↦ false | some focus ↦ text_eq focus subject ]

abbrev pub scout_payload : ℕ → Text → Payload
scout_payload domain_id subject = record no_payload {
  domain_id = some domain_id;
  focus = some subject;
  focus_from = some (codes "moltbook");
}

abbrev pub enqueue_at : ℕ → Kind → Payload → ℕ → Db → Db
enqueue_at now kind payload priority db = record db {
  queue = (enqueue now kind payload none priority db.queue).1;
}

-- The research that an acknowledgement promises; an empty subject is none.
abbrev pub look_into : ℕ → Option Text → Option ℕ → Db → Db
look_into now none domain db = db
look_into now (some []) domain db = db
look_into now (some (c ∷ s)) none db = db
look_into now (some (c ∷ s)) (some domain_id) db =
    if any (is_scouting (c ∷ s)) db.queue.rows
    then db
    else enqueue_at now scout (scout_payload domain_id (c ∷ s)) 3 db

abbrev pub reply_vote : ℕ → Details → Text → Desk → Desk
reply_vote now details post_id d =
    (queue_vote now post_id details.reply_to_comment details.domain_id details.observation_id
      "Upvoted with the reply to it." d).1

-- A draft without a post to reply to is a KeyError.
abbrev pub reply_to : ℕ → ℕ → Details → Option Text → Desk → Answer Desk
reply_to now decision_id details none d = refused missing_key
reply_to now decision_id details (some post_id) d =
    let queued = with_outbox (insert_post now comment decision_id (as_reply details post_id)) d in
    let looked : Desk = record queued {
      db = look_into now details.look_into details.domain_id queued.db;
    } in
    done (reply_vote now details post_id looked)

-- `_queue_reply`
unfoldable pub queue_reply : ℕ → ℕ → Details → Desk → Answer Desk
queue_reply now decision_id details d =
    unless (reply_problems (clean_content details.content))
      (reply_to now decision_id details details.reply_to_post d)
