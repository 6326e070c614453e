-- ===== src/Publisher/Sending.antt =====
-- What one run of the publisher sends and records (`_publish_next` in src/collegium/publisher.py).
use collegium.Prelude.{
  ℕ, ◌≡◌, inl, inr, refl, sym, ap, Bool, true, false, Option, none, some, List, [], ◌∷◌, ◌++◌,
  arith, Bool-cases, update_where, ◌==◌, if◌then◌else◌,
}
use collegium.Text.{Text}
use collegium.Outbox.{Post, Outbox, no_id, call_failed, is_vote, Verification, passed}
use collegium.Publisher.Client.{
  Request, upvote, Response, Attempt, pace, refused, created, Challenge, read_created,
}
use collegium.Publisher.{
  Outcome, will_retry, call_refused, without_id, not_verified, published_at, upvoted, interrupted,
  Run, update_post, mark_publishing, mark_retry, mark_failed, mark_hidden, mark_published,
  mark_upvoted, creation_request, created_url, target_url, after_check, after_id, after_creation,
  send_content, after_upvote, send_vote, attempt, check,
}

-- How an outcome is recorded on the post's row.
pub data Records (p : Post) : Outcome → (Post → Post) → Type 0 where
  retry_later : Records p (will_retry p.id) mark_retry
  refusal : Records p (call_refused p.id) (mark_failed call_failed)
  no_answer : Records p (without_id p.id) (mark_failed no_id)
  unverified : {post_id url : Text} → Records p (not_verified p.id) (mark_hidden post_id url)
  publication :
      {at : ℕ} {post_id url : Text} {verification : Option Verification}
      → Records p (published_at p.id) (mark_published at post_id url verification)
  vote_cast : {at : ℕ} {url : Text} → Records p (upvoted p.id) (mark_upvoted at url)
  interruption : Records p (interrupted p.id) (λ r. r)

-- What is sent first for a post.
abbrev pub request_for : Post → Request
request_for p =
    if is_vote p.kind then upvote p.reply_to_post p.reply_to_comment else creation_request p

-- A run that attempts a post, from an outbox where it is marked publishing.
pub record Attempted (p : Post) (o : Outbox) (sent : List Request) (run : Run) : Type 0 where
  pub change : Post → Post
  pub more : List Request
  pub recorded : Records p run.outcome change
  pub saved : run.outbox.posts ≡ update_where (λ r. r.id == p.id) change o.posts
  pub kept : run.outbox.resumes ≡ o.resumes
  pub requests : run.sent ≡ sent ++ more

update_where_id : (k : ℕ) (rows : List Post) → update_where (λ r. r.id == k) (λ r. r) rows ≡ rows
update_where_id k [] = refl
update_where_id k (r ∷ rows) = ground (arith, update_where_id k rows)

append_nil : (rs : List Request) → rs ++ [] ≡ rs
append_nil [] = refl
append_nil (r ∷ rs) = ap (◌∷◌ r) (append_nil rs)

module _ (forum : Request → Response) (answers : Text → Option Text) (at : ℕ) (p : Post)
    (o : Outbox) where
  with_more :
      (outcome : Outcome) (change : Post → Post) (sent more : List Request)
      → Records p outcome change
      → Attempted p o sent
          (record { outcome = outcome; outbox = update_post p.id change o; sent = sent ++ more })
  with_more outcome change sent more recorded = record {
    change = change;
    more = more;
    recorded = recorded;
    saved = refl;
    kept = refl;
    requests = refl;
  }

  no_more :
      (outcome : Outcome) (change : Post → Post) (sent : List Request)
      → Records p outcome change
      → Attempted p o sent
          (record { outcome = outcome; outbox = update_post p.id change o; sent = sent })
  no_more outcome change sent recorded = record {
    change = change;
    more = [];
    recorded = recorded;
    saved = refl;
    kept = refl;
    requests = sym (append_nil sent);
  }

  after_check-Attempted :
      (post_id : Text) (sent more : List Request) (verdict : Option Bool)
      → Attempted p o sent (record {
        outcome = (after_check forum answers at p post_id o verdict).0;
        outbox = (after_check forum answers at p post_id o verdict).1;
        sent = sent ++ more;
      })
  after_check-Attempted post_id sent more none = record {
    change = λ r. r;
    more = more;
    recorded = interruption;
    saved = sym (update_where_id p.id o.posts);
    kept = refl;
    requests = refl;
  }
  after_check-Attempted post_id sent more (some false) =
      with_more _ (mark_hidden post_id (created_url p post_id)) sent more unverified
  after_check-Attempted post_id sent more (some true) =
      with_more _ (mark_published at post_id (created_url p post_id) (some passed)) sent more
        publication

  after_id-Attempted :
      (sent : List Request) (id : Text) (asked : Option Challenge)
      → Attempted p o sent (after_id forum answers at p sent id asked o)
  after_id-Attempted sent [] asked = no_more _ (mark_failed no_id) sent no_answer
  after_id-Attempted sent (c ∷ s) none =
      no_more _ (mark_published at (c ∷ s) (created_url p (c ∷ s)) none) sent publication
  after_id-Attempted sent (c ∷ s) (some challenge) =
      after_check-Attempted (c ∷ s) sent (check forum answers challenge).0
        (check forum answers challenge).1

  after_creation-Attempted :
      (sent : List Request) (a : Attempt)
      → Attempted p o sent (after_creation forum answers at p sent a o)
  after_creation-Attempted sent pace = no_more _ (mark_retry) sent retry_later
  after_creation-Attempted sent refused = no_more _ (mark_failed call_failed) sent refusal
  after_creation-Attempted sent (created c) = after_id-Attempted sent c.id c.challenge

  after_upvote-Attempted :
      (sent : List Request) (a : Attempt)
      → Attempted p o sent (after_upvote forum answers at p sent a o)
  after_upvote-Attempted sent pace = no_more _ (mark_retry) sent retry_later
  after_upvote-Attempted sent refused = no_more _ (mark_failed call_failed) sent refusal
  after_upvote-Attempted sent (created c) =
      no_more _ (mark_upvoted at (target_url p)) sent vote_cast

module _ (forum : Request → Response) (answers : Text → Option Text) where
  pub attempt-Attempted :
      (now at : ℕ) (p : Post) (o : Outbox)
      → Attempted p
          (update_post p.id (mark_publishing now) o)
          (request_for p ∷ [])
          (attempt forum answers now at p o)
  unfolding attempt send_vote send_content
  attempt-Attempted now at p o =
      let marked = update_post p.id (mark_publishing now) o in
      let vote_request = upvote p.reply_to_post p.reply_to_comment in
      elim (Bool-cases (is_vote p.kind)) [
        | inl e ↦ rw e (
            after_upvote-Attempted forum answers at p marked (vote_request ∷ [])
              (read_created (forum vote_request)))
        | inr e ↦ rw e (
            after_creation-Attempted forum answers at p marked (creation_request p ∷ [])
              (read_created (forum (creation_request p))))
      ]
