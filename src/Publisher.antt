-- ===== src/Publisher.antt =====
-- The publisher (src/collegium/publisher.py). `forum` is Moltbook: what comes back for each request.
-- `answers` is `solve`, which asks the language model. Both are the outside's. A run is the body of
-- `_publish_next`, with the requests that it made, in order.
mod Client
unfoldable pub use Client.*
pub mod Sending
pub mod Halting
pub mod Settling
mod Tests
use collegium.Prelude.{
  ℕ, suc, ◌+◌, Bool, true, false, not, ◌&&◌, ◌||◌, Option, none, some, List, [], ◌∷◌, ◌++◌, ltb,
  leb, ◌==◌, if◌then◌else◌, length, filter, find, map, all, any, take, least, sort, update_where,
  is_some, map_option,
}
use collegium.Text.{Text}
use collegium.Community.{post_url, comment_url}
use collegium.Outbox.{
  PostKind, post, comment, vote, PostStatus, approved, publishing, published, failed, Verification,
  passed, rejected, Trouble, rate_limited, call_failed, no_id, hidden, Post, Resume, Outbox,
  is_approved, same_kind, is_vote,
}

-- MIN_INTERVAL, in seconds
abbrev pub min_interval : PostKind → ℕ
min_interval post = 3600
min_interval comment = 600
min_interval vote = 120

abbrev pub max_failed_verifications : ℕ
max_failed_verifications = 3

abbrev pub is_verified : Post → Bool
is_verified p = is_some p.verification

abbrev pub is_rejected : Option Verification → Bool
is_rejected (some rejected) = true
is_rejected _ = false

-- ORDER BY attempted_at DESC, which puts a NULL first.
abbrev pub later_attempt : Option ℕ → Option ℕ → Bool
later_attempt none none = false
later_attempt none (some b) = true
later_attempt (some a) none = false
later_attempt (some a) (some b) = ltb b a

-- The last verified attempts, newest first.
unfoldable pub last_verified : Outbox → List Post
last_verified o =
    take max_failed_verifications
      (sort (λ p r. later_attempt p.attempted_at r.attempted_at) (filter is_verified o.posts))

abbrev pub first_attempt : List Post → Option ℕ
first_attempt [] = none
first_attempt (p ∷ ps) = p.attempted_at

unfoldable pub halted_since : Outbox → Option ℕ
halted_since o =
    let rows = last_verified o in
    if (length rows == max_failed_verifications) && all (λ p. is_rejected p.verification) rows
    then first_attempt rows
    else none

-- SKIP LOCKED
abbrev pub is_free : Outbox → ℕ → Bool
is_free o id = not (any (λ k. k == id) o.locked)

-- created_at > since AND used_at IS NULL
abbrev pub is_pending_resume : ℕ → Resume → Bool
is_pending_resume since r = not (is_some r.used_at) && ltb since r.created_at

unfoldable pub pending_resume : ℕ → Outbox → Option Resume
pending_resume since o =
    least (λ r s. ltb r.created_at s.created_at)
      (filter (λ r. is_pending_resume since r && is_free o r.id) o.resumes)

abbrev pub use_resume : ℕ → ℕ → Outbox → Outbox
use_resume now resume_id o = record o {
  resumes = update_where (λ r. r.id == resume_id) (λ r. record r { used_at = some now }) o.resumes;
}

-- The state after a pending resume is used, if there is one.
unfoldable pub consume_resume : ℕ → ℕ → Outbox → Option Outbox
consume_resume since now o = map_option (λ r. use_resume now r.id o) (pending_resume since o)

-- No attempt of this kind is as recent as its interval.
abbrev pub is_spaced : ℕ → PostKind → Post → Bool
is_spaced now kind p =
    not (same_kind p.kind kind)
    || elim p.attempted_at [ none ↦ true | some at ↦ leb (at + min_interval kind) now ]

unfoldable pub is_ready : ℕ → Outbox → PostKind → Bool
is_ready now o kind = all (is_spaced now kind) o.posts

-- The oldest approved post whose kind is ready, among those that no other transaction has locked.
abbrev pub is_candidate : ℕ → Outbox → Post → Bool
is_candidate now o p = is_approved p.status && (is_ready now o p.kind && is_free o p.id)

unfoldable pub next_post : ℕ → Outbox → Option Post
next_post now o = least (λ p r. ltb p.created_at r.created_at) (filter (is_candidate now o) o.posts)

abbrev pub update_post : ℕ → (Post → Post) → Outbox → Outbox
update_post post_id change o = record o {
  posts = update_where (λ p. p.id == post_id) change o.posts;
}

abbrev pub mark_publishing : ℕ → Post → Post
mark_publishing now p = record p { status = publishing; attempted_at = some now }

pub data Outcome : Type 0 where
  halted nothing : Outcome
  will_retry call_refused without_id not_verified published_at upvoted : ℕ → Outcome
  -- The call to verify raised: nothing is recorded after it.
  interrupted : ℕ → Outcome

pub record Run : Type 0 where
  pub outcome : Outcome
  pub outbox : Outbox
  pub sent : List Request

-- `_record`: the error column is cleared unless it is given.
abbrev pub mark_retry : Post → Post
mark_retry p = record p { status = approved; error = some rate_limited }

abbrev pub mark_failed : Trouble → Post → Post
mark_failed trouble p = record p { status = failed; error = some trouble }

abbrev pub mark_hidden : Text → Text → Post → Post
mark_hidden post_id url p = record p {
  status = failed;
  external_id = some post_id;
  url = some url;
  verification = some rejected;
  error = some hidden;
}

abbrev pub mark_published : ℕ → Text → Text → Option Verification → Post → Post
mark_published at post_id url verification p = record p {
  status = published;
  external_id = some post_id;
  url = some url;
  verification = verification;
  published_at = some at;
  error = none;
}

abbrev pub mark_upvoted : ℕ → Text → Post → Post
mark_upvoted at url p = record p {
  status = published;
  url = some url;
  published_at = some at;
  error = none;
}

abbrev pub target_url : Post → Text
target_url p = elim p.reply_to_comment [
  | none ↦ post_url p.reply_to_post
  | some c ↦ comment_url p.reply_to_post c
]

abbrev pub created_url : Post → Text → Text
created_url p post_id =
    if same_kind p.kind post then post_url post_id else comment_url p.reply_to_post post_id

abbrev pub creation_request : Post → Request
creation_request p =
    if same_kind p.kind post
    then create_post p.submolt p.title p.content
    else create_comment p.reply_to_post p.content p.reply_to_comment

module _ (forum : Request → Response) (answers : Text → Option Text) where
  -- The verification of what was created: the answer, and whether it passed. `none` is an exception.
  unfoldable pub check : Challenge → List Request × Option Bool
  check challenge = elim (answers challenge.challenge_text) [
    | none ↦ ([], some false)
    | some answer ↦
        let request = verify challenge.verification_code answer in
        (request ∷ [], read_verified (forum request))
  ]

  abbrev pub after_check : ℕ → Post → Text → Outbox → Option Bool → Outcome × Outbox
  after_check at p post_id o none = (interrupted p.id, o)
  after_check at p post_id o (some false) =
      (not_verified p.id, update_post p.id (mark_hidden post_id (created_url p post_id)) o)
  after_check at p post_id o (some true) = (
    published_at p.id,
    update_post p.id (mark_published at post_id (created_url p post_id) (some passed)) o,
  )

  -- After the forum has created the post: its id, and its challenge if it asks for one.
  abbrev pub after_id : ℕ → Post → List Request → Text → Option Challenge → Outbox → Run
  after_id at p sent [] asked o = record {
    outcome = without_id p.id;
    outbox = update_post p.id (mark_failed no_id) o;
    sent = sent;
  }
  after_id at p sent (c ∷ s) none o = record {
    outcome = published_at p.id;
    outbox = update_post p.id (mark_published at (c ∷ s) (created_url p (c ∷ s)) none) o;
    sent = sent;
  }
  after_id at p sent (c ∷ s) (some challenge) o =
      let (more, verdict) = check challenge in
      let (outcome, o') = after_check at p (c ∷ s) o verdict in
      record { outcome = outcome; outbox = o'; sent = sent ++ more }

  abbrev pub settle : ℕ → Post → List Request → Created → Outbox → Run
  settle at p sent answer o = after_id at p sent answer.id answer.challenge o

  abbrev pub after_creation : ℕ → Post → List Request → Attempt → Outbox → Run
  after_creation at p sent pace o = record {
    outcome = will_retry p.id;
    outbox = update_post p.id mark_retry o;
    sent = sent;
  }
  after_creation at p sent refused o = record {
    outcome = call_refused p.id;
    outbox = update_post p.id (mark_failed call_failed) o;
    sent = sent;
  }
  after_creation at p sent (created c) o = settle at p sent c o

  unfoldable pub send_content : ℕ → Post → Outbox → Run
  send_content at p o =
      let request = creation_request p in
      after_creation at p (request ∷ []) (read_created (forum request)) o

  abbrev pub after_upvote : ℕ → Post → List Request → Attempt → Outbox → Run
  after_upvote at p sent pace o = record {
    outcome = will_retry p.id;
    outbox = update_post p.id mark_retry o;
    sent = sent;
  }
  after_upvote at p sent refused o = record {
    outcome = call_refused p.id;
    outbox = update_post p.id (mark_failed call_failed) o;
    sent = sent;
  }
  after_upvote at p sent (created c) o = record {
    outcome = upvoted p.id;
    outbox = update_post p.id (mark_upvoted at (target_url p)) o;
    sent = sent;
  }

  -- `_vote`
  unfoldable pub send_vote : ℕ → Post → Outbox → Run
  send_vote at p o =
      let request = upvote p.reply_to_post p.reply_to_comment in
      after_upvote at p (request ∷ []) (read_created (forum request)) o

  -- The attempt: marked publishing first, then sent. `at` is the clock when it is recorded.
  unfoldable pub attempt : ℕ → ℕ → Post → Outbox → Run
  attempt now at p o =
      let marked = update_post p.id (mark_publishing now) o in
      if is_vote p.kind then send_vote at p marked else send_content at p marked

  abbrev pub stop : Outcome → Outbox → Run
  stop outcome o = record { outcome = outcome; outbox = o; sent = [] }

  abbrev pub despite_halt : ℕ → ℕ → Option Post → Option Outbox → Outbox → Run
  despite_halt now at none resumed o = stop halted o
  despite_halt now at (some p) none o = stop halted o
  despite_halt now at (some p) (some resumed) o = attempt now at p resumed

  abbrev pub publish_from : ℕ → ℕ → Option ℕ → Option Post → Outbox → Run
  publish_from now at none none o = stop nothing o
  publish_from now at none (some p) o = attempt now at p o
  publish_from now at (some since) found o =
      despite_halt now at found (consume_resume since now o) o

  unfoldable pub publish_next : ℕ → ℕ → Outbox → Run
  publish_next now at o = publish_from now at (halted_since o) (next_post now o) o
