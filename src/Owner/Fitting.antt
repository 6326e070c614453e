-- ===== src/Owner/Fitting.antt =====
-- What is in the outbox keeps to the forum's bounds (`_queue_post`, `_queue_reply`, `_queue_vote` and
-- their callers in src/collegium/owner.py; `problems` and `reply_problems` in
-- src/collegium/community.py).
use collegium.Prelude.{
  ℕ, ◌≡◌, refl, Bool, true, false, Option, none, some, List, [], ◌∷◌, All, All-append,
  All-update_where, Bool-cases, inl, inr, any, String, if◌then◌else◌, count_where, ◌==◌, find,
}
use collegium.Text.{Text, text_eq}
use collegium.Community.{Problem, problems, reply_problems, thread}
use collegium.Memory.{Source}
use collegium.Outbox.{PostKind, post, comment, vote, Post, Outbox}
use collegium.Owner.{
  Desk, Details, Edits, Topic, Decision, Answer, refused, done, and_then, insert_post, queue_vote,
  queue_post, queue_reply, reply_to, unless, with_outbox, is_vote_for, add_feed_of,
  grant_publisher_resume, edited, settle_programs, waits, program_status, no_longer_waiting,
  already_voted, own_text, post_not_waiting, post_not_failed, unique_violation, withdraw, upvote_at,
  source_topic, post_topic, reply_topic, program_topic, vote_topic, other_topic, take_effect,
  effect_of, resolve_waiting, resolve_decision, vote_once, upvote_thread, upvote, withdraw_post,
  retry_post, update_posts, clean, clean_content, as_post, as_reply, vote_for, keep_reason,
  with_ruling, new_post, is_waiting_post, is_failed_post, approve_again,
}

-- What a row of each kind says: a post and a reply have no problem, a vote has no text.
abbrev pub FitsAs : PostKind → Text → Text → Text → Type 0
FitsAs post title content submolt = problems title content submolt ≡ []
FitsAs comment title content submolt = reply_problems content ≡ []
FitsAs vote title content submolt = content ≡ []

abbrev pub Fits : Post → Type 0
Fits p = FitsAs p.kind p.title p.content p.submolt

abbrev pub AllFit : Desk → Type 0
AllFit d = All Fits d.outbox.posts

-- What holds of the result, when there is one.
abbrev pub Ensures {ℓ} : {A : Type ℓ} → (A → Type 0) → Answer A → Type 0
Ensures P (refused why) = Unit
Ensures P (done a) = P a

Ensures-and_then {ℓ κ} :
    {A : Type ℓ} {B : Type κ} (P : A → Type 0) (Q : B → Type 0) (answer : Answer A)
    (k : A → Answer B)
    → Ensures P answer
    → ((a : A) → P a → Ensures Q (k a))
    → Ensures Q (and_then answer k)
Ensures-and_then P Q (refused why) k h go = tt
Ensures-and_then P Q (done a) k h go = go a h

Ensures-if {ℓ} :
    {A : Type ℓ} (P : A → Type 0) (test : Bool) (a b : Answer A)
    → Ensures P a
    → Ensures P b
    → Ensures P (if test then a else b)
Ensures-if P true a b h k = h
Ensures-if P false a b h k = k

insert_post-Fits :
    (now : ℕ) (kind : PostKind) (decision_id : ℕ) (fill : Post → Post) (o : Outbox)
    → Fits (fill (new_post now o.next_id kind decision_id))
    → All Fits o.posts
    → All Fits (insert_post now kind decision_id fill o).posts
unfolding insert_post
insert_post-Fits now kind decision_id fill o new h =
    All-append Fits o.posts (fill (new_post now o.next_id kind decision_id) ∷ []) h (new, tt)

queue_vote-Fits :
    (now : ℕ) (post_id : Text) (comment_id : Option Text) (domain_id about_id : Option ℕ)
    (why : String) (d : Desk)
    → AllFit d
    → AllFit (queue_vote now post_id comment_id domain_id about_id why d).1
unfolding queue_vote
queue_vote-Fits now post_id comment_id domain_id about_id why d h =
    elim (Bool-cases (any (is_vote_for post_id comment_id) d.outbox.posts)) [
      | inl voted ↦ rw voted h
      | inr new ↦ rw new (
          insert_post-Fits now vote d.next_id (vote_for post_id comment_id domain_id about_id)
            d.outbox refl h)
    ]

unless-Ensures :
    {A : Type 0} (P : A → Type 0) (found : List Problem) (answer : Answer A)
    → (found ≡ [] → Ensures P answer)
    → Ensures P (unless found answer)
unless-Ensures P [] answer h = h refl
unless-Ensures P (p ∷ ps) answer h = tt

queue_post-Fits :
    (now decision_id : ℕ) (details : Details) (d : Desk)
    → AllFit d
    → Ensures AllFit (queue_post now decision_id details d)
unfolding queue_post
queue_post-Fits now decision_id details d h =
    unless-Ensures AllFit
      (problems (clean details.title) (clean_content details.content) (clean details.submolt))
      (done (with_outbox (insert_post now post decision_id (as_post details)) d))
      (λ none_found. insert_post-Fits now post decision_id (as_post details) d.outbox none_found h)

reply_to-Fits :
    (now decision_id : ℕ) (details : Details) (target : Option Text) (d : Desk)
    → reply_problems (clean_content details.content) ≡ []
    → AllFit d
    → Ensures AllFit (reply_to now decision_id details target d)
reply_to-Fits now decision_id details none d good h = tt
reply_to-Fits now decision_id details (some post_id) d good h =
    queue_vote-Fits now post_id details.reply_to_comment details.domain_id details.observation_id _
      _ (insert_post-Fits now comment decision_id (as_reply details post_id) d.outbox good h)

queue_reply-Fits :
    (now decision_id : ℕ) (details : Details) (d : Desk)
    → AllFit d
    → Ensures AllFit (queue_reply now decision_id details d)
unfolding queue_reply
queue_reply-Fits now decision_id details d h =
    unless-Ensures AllFit (reply_problems (clean_content details.content))
      (reply_to now decision_id details details.reply_to_post d)
      (λ good. reply_to-Fits now decision_id details details.reply_to_post d good h)

add_feed-Fits :
    (domain_id : Option ℕ) (url title : Option Text) (d : Desk)
    → AllFit d
    → Ensures AllFit (add_feed_of domain_id url title d)
add_feed-Fits none url title d h = tt
add_feed-Fits (some domain_id) none title d h = tt
add_feed-Fits (some domain_id) (some url) title d h = h

take_effect-Fits :
    (now decision_id : ℕ) (topic : Topic) (details : Details) (edits : Edits) (d : Desk)
    → AllFit d
    → Ensures AllFit (take_effect now decision_id topic details edits d)
take_effect-Fits now decision_id source_topic details edits d h =
    add_feed-Fits details.domain_id details.feed_url details.title d h
take_effect-Fits now decision_id post_topic details edits d h =
    queue_post-Fits now decision_id (edited edits details) d h
take_effect-Fits now decision_id reply_topic details edits d h =
    queue_reply-Fits now decision_id (edited edits details) d h
take_effect-Fits now decision_id program_topic details edits d h = h
take_effect-Fits now decision_id vote_topic details edits d h = h
take_effect-Fits now decision_id other_topic details edits d h = h

effect_of-Fits :
    (now decision_id : ℕ) (approving : Bool) (found : Option Decision) (edits : Edits) (d : Desk)
    → AllFit d
    → Ensures AllFit (effect_of now decision_id approving found edits d)
effect_of-Fits now decision_id approving none edits d h = tt
effect_of-Fits now decision_id false (some decision) edits d h = h
effect_of-Fits now decision_id true (some decision) edits d h =
    take_effect-Fits now decision_id decision.topic decision.details edits d h

keep_reason-outbox :
    (decision_id : ℕ) (approving : Bool) (reason : Text) (d : Desk)
    → (keep_reason decision_id approving reason d).outbox ≡ d.outbox
keep_reason-outbox decision_id approving [] d = refl
keep_reason-outbox decision_id true (c ∷ s) d = refl
keep_reason-outbox decision_id false (c ∷ s) d = refl

pub resolve_decision-Fits :
    (now decision_id : ℕ) (approving : Bool) (reason : Option Text) (edits : Edits) (d : Desk)
    → AllFit d
    → Ensures (λ r. AllFit r.1) (resolve_decision now decision_id approving reason edits d)
unfolding resolve_decision resolve_waiting settle_programs
resolve_decision-Fits now decision_id approving reason edits d h =
    let ruled =
      keep_reason decision_id approving (clean reason) (with_ruling decision_id approving d) in
    let found = find (λ x. x.id == decision_id) ruled.decisions in
    Ensures-if (λ r. AllFit r.1) (count_where (waits decision_id) d.decisions == 0)
      (refused no_longer_waiting) (resolve_waiting now decision_id approving (clean reason) edits d)
      tt
      (Ensures-and_then AllFit (λ r. AllFit r.1)
        (effect_of now decision_id approving found edits ruled)
        (λ d'. done (settle_programs decision_id (program_status approving) d'))
        (effect_of-Fits now decision_id approving found edits ruled (
          rw
            (keep_reason-outbox decision_id approving (clean reason)
              (with_ruling decision_id approving d))
            h))
        (λ d' fits. fits))

vote_once-Fits :
    (now : ℕ) (post_id : Text) (comment_id : Option Text) (d : Desk)
    → AllFit d
    → Ensures AllFit (vote_once now post_id comment_id d)
vote_once-Fits now post_id comment_id d h =
    let queued = queue_vote now post_id comment_id none none "The owner's upvote." d in
    Ensures-if AllFit queued.0 (done queued.1) (refused already_voted)
      (queue_vote-Fits now post_id comment_id none none "The owner's upvote." d h) tt

upvote_thread-Fits :
    (now : ℕ) (source : Option Source) (post_id : Text) (comment_id : Option Text) (d : Desk)
    → AllFit d
    → Ensures AllFit (upvote_thread now source post_id comment_id d)
upvote_thread-Fits now none post_id comment_id d h = tt
upvote_thread-Fits now (some s) post_id comment_id d h =
    Ensures-if AllFit _ (refused own_text) (vote_once now post_id comment_id d) tt
      (vote_once-Fits now post_id comment_id d h)

upvote_at-Fits :
    (now : ℕ) (url : Text) (where_ : Option (Text × Option Text)) (d : Desk)
    → AllFit d
    → Ensures AllFit (upvote_at now url where_ d)
upvote_at-Fits now url none d h = tt
upvote_at-Fits now url (some (post_id, comment_id)) d h =
    upvote_thread-Fits now (find (λ s. text_eq s.uri url) d.db.memory.sources) post_id comment_id d
      h

pub upvote-Fits : (now : ℕ) (url : Text) (d : Desk) → AllFit d → Ensures AllFit (upvote now url d)
unfolding upvote
upvote-Fits now url d h = upvote_at-Fits now url (thread url) d h

pub withdraw_post-Fits :
    (post_id : ℕ) (d : Desk) → AllFit d → Ensures AllFit (withdraw_post post_id d)
unfolding withdraw_post
withdraw_post-Fits post_id d h =
    Ensures-if AllFit (count_where (is_waiting_post post_id) d.outbox.posts == 0)
      (refused post_not_waiting)
      (done (with_outbox (update_posts (is_waiting_post post_id) withdraw) d)) tt
      (All-update_where Fits (is_waiting_post post_id) withdraw d.outbox.posts (λ r e fits. fits) h)

pub retry_post-Fits : (post_id : ℕ) (d : Desk) → AllFit d → Ensures AllFit (retry_post post_id d)
unfolding retry_post
retry_post-Fits post_id d h =
    let again = done (with_outbox (update_posts (is_failed_post post_id) approve_again) d) in
    Ensures-if AllFit (count_where (is_failed_post post_id) d.outbox.posts == 0)
      (refused post_not_failed) _ tt
      (Ensures-if AllFit _ (refused unique_violation) again tt (
        All-update_where Fits (is_failed_post post_id) approve_again d.outbox.posts
          (λ r e fits. fits) h))

pub grant-Fits : (now : ℕ) (d : Desk) → AllFit d → AllFit (grant_publisher_resume now d)
unfolding grant_publisher_resume
grant-Fits now d h = h
