-- ===== src/Owner.antt =====
-- What the owner can do about posts, votes, programs and hypotheses (src/collegium/owner.py). Each
-- operation runs in one transaction: it returns the whole new state, or it raises and nothing is
-- kept. The CHECKs of the tables on the spelling of ids are not modelled.
pub mod Tables
pub mod Queueing
pub mod Deciding
pub mod Fitting
pub mod Traces
mod Tests
unfoldable pub use Tables.*
unfoldable pub use Queueing.*
unfoldable pub use Deciding.*
use collegium.Prelude.{
  ℕ, suc, Bool, true, false, not, ◌&&◌, ◌||◌, Option, none, some, List, [], ◌∷◌, ◌++◌, ◌==◌, leb,
  if◌then◌else◌, any, find, filter, map, or_default, is_some, map_option, update_where, count_where,
  String,
}
use collegium.Text.{Text, codes, text_eq, strip}
use collegium.Community.{Problem, problems, reply_problems, thread}
use collegium.Jobs.{scout, resolve, Payload, no_payload, enqueue, JobRow, is_live, Kind, kind_code}
use collegium.Memory.{
  HypothesisStatus, Hypothesis, Memory, Relationship, Predicate, concerns, add_critique,
  set_critique_status, upheld, hypothesis, Source,
}
use collegium.Memory
use collegium.Db.{Db, with_memory}
use collegium.Outbox.{
  PostKind, post, comment, vote, PostStatus, Post, Resume, Outbox, is_approved, is_failed, is_vote,
  approved, withdrawn, failed, same_kind,
}

abbrev pub own_account : Text
own_account = codes "drargus"

-- memory.own_post
abbrev pub is_own_post : Text → Post → Bool
is_own_post post_id p =
    same_kind p.kind post
    && elim p.external_id [ none ↦ false | some external_id ↦ text_eq external_id post_id ]

abbrev pub is_own : Source → Bool
is_own s = elim s.author [ none ↦ false | some author ↦ text_eq author own_account ]

abbrev pub vote_once : ℕ → Text → Option Text → Desk → Answer Desk
vote_once now post_id comment_id d =
    let (voted, d') = queue_vote now post_id comment_id none none "The owner's upvote." d in
    if voted then done d' else refused already_voted

abbrev pub upvote_thread : ℕ → Option Source → Text → Option Text → Desk → Answer Desk
upvote_thread now none post_id comment_id d = refused not_recorded
upvote_thread now (some s) post_id comment_id d =
    if is_own s || (not (is_some comment_id) && any (is_own_post post_id) d.outbox.posts)
    then refused own_text
    else vote_once now post_id comment_id d

abbrev pub upvote_at : ℕ → Text → Option (Text × Option Text) → Desk → Answer Desk
upvote_at now url none d = refused not_a_thread
upvote_at now url (some (post_id, comment_id)) d =
    upvote_thread now (find (λ s. text_eq s.uri url) d.db.memory.sources) post_id comment_id d

unfoldable pub upvote : ℕ → Text → Desk → Answer Desk
upvote now url d = upvote_at now url (thread url) d

abbrev pub is_open_program : ProgramStatus → Bool
is_open_program program_active = true
is_open_program program_paused = true
is_open_program _ = false

abbrev pub is_this_open : ℕ → Program → Bool
is_this_open program_id p = p.id == program_id && is_open_program p.status

abbrev pub closed_program : ℕ → Option Program → Desk → Answer (Text × Desk)
closed_program program_id none d = refused program_not_open
closed_program program_id (some p) d = done (
  p.name,
  record d {
    programs =
        update_where (is_this_open program_id) (λ p. record p { status = program_closed })
          d.programs;
  },
)

unfoldable pub withdraw_program : ℕ → Desk → Answer (Text × Desk)
withdraw_program program_id d =
    closed_program program_id (find (is_this_open program_id) d.programs) d

abbrev pub is_waiting_post : ℕ → Post → Bool
is_waiting_post post_id p = p.id == post_id && is_approved p.status

abbrev pub update_posts : (Post → Bool) → (Post → Post) → Outbox → Outbox
update_posts here change o = record o { posts = update_where here change o.posts }

abbrev pub withdraw : Post → Post
withdraw p = record p { status = withdrawn }

unfoldable pub withdraw_post : ℕ → Desk → Answer Desk
withdraw_post post_id d =
    if count_where (is_waiting_post post_id) d.outbox.posts == 0
    then refused post_not_waiting
    else done (with_outbox (update_posts (is_waiting_post post_id) withdraw) d)

abbrev pub is_failed_post : ℕ → Post → Bool
is_failed_post post_id p = p.id == post_id && is_failed p.status

abbrev pub approve_again : Post → Post
approve_again p = record p { status = approved; error = none }

-- The index community_posts_one_vote refuses a second vote that stands for the same target.
abbrev pub is_second_vote : ℕ → List Post → Post → Bool
is_second_vote post_id posts p =
    is_failed_post post_id p
    && is_vote p.kind
    && any (is_vote_for p.reply_to_post p.reply_to_comment) posts

unfoldable pub retry_post : ℕ → Desk → Answer Desk
retry_post post_id d =
    if count_where (is_failed_post post_id) d.outbox.posts == 0
    then refused post_not_failed
    else if any (is_second_vote post_id d.outbox.posts) d.outbox.posts
    then refused unique_violation
    else done (with_outbox (update_posts (is_failed_post post_id) approve_again) d)

unfoldable pub grant_publisher_resume : ℕ → Desk → Desk
grant_publisher_resume now d =
    with_outbox
      (λ o. record o {
        next_id = suc o.next_id;
        resumes = o.resumes ++ record { id = o.next_id; created_at = now; used_at = none } ∷ [];
      })
      d

abbrev pub resolve_payload : ℕ → Payload
resolve_payload hypothesis_id = record no_payload {
  hypothesis_id = some hypothesis_id;
  round = some 1;
}

abbrev pub challenged : ℕ → ℕ → Text → Option String → ℕ → Desk → ℕ × Desk
challenged now hypothesis_id argument alternative severity d =
    let (critique_id, m) = add_critique hypothesis_id argument alternative severity d.db.memory in
    let db = enqueue_at now resolve (resolve_payload hypothesis_id) 2 (with_memory (λ _. m) d.db) in
    (critique_id, record d { db = db })

abbrev pub challenge_hypothesis :
    ℕ → Text → Option String → ℕ → Option Hypothesis → Desk → Answer (ℕ × Desk)
challenge_hypothesis now argument alternative severity none d = refused no_such_hypothesis
challenge_hypothesis now argument alternative severity (some h) d =
    if Memory.is_live h.status
    then done (challenged now h.id argument alternative severity d)
    else refused not_live

-- The alternative is stored as it is given.
unfoldable pub challenge : ℕ → ℕ → Text → Option String → ℕ → Desk → Answer (ℕ × Desk)
challenge now hypothesis_id argument alternative severity d = elim (strip argument) [
  | [] ↦ refused no_objection
  | c ∷ s ↦
      (if leb 1 severity && leb severity 5
        then challenge_hypothesis now (c ∷ s) alternative severity
            (hypothesis hypothesis_id d.db.memory) d
        else refused bad_severity)
]
