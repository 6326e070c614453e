-- ===== src/Publisher/Settling.antt =====
-- What a run of the publisher leaves in the outbox, and the pace it keeps (`_publish_next` and
-- `_record` in src/collegium/publisher.py).
use collegium.Prelude.{
  ℕ, Bool, not, ◌||◌, none, or_default, subst, sym, Bool-cases, ◌⊎◌, ◌≡◌, ◌≢◌, refl, ap, ◌∙◌, true,
  false, Option, some, List, [], ◌∷◌, inl, inr, Memᴰ, map, map-update_where, All, update_where-All,
  All-any, least-mem, mem-filter, ◌==◌, arith, filter, ltb,
}
use collegium.Text.{Text}
use collegium.Outbox.{PostKind, Post, Outbox, is_approved, publishing, is_vote}
use collegium.Publisher.Client.{
  Request, upvote, Response, answered, broken, Attempt, pace, refused, created, Challenge,
  read_created, is_created_status,
}
use collegium.Publisher.{
  Outcome, will_retry, Run, update_post, mark_publishing, publish_next, next_post, is_candidate,
  is_ready, creation_request, check, after_check, after_id, after_creation, after_upvote, attempt,
  send_vote, send_content, despite_halt, publish_from, consume_resume, halted_since,
}
use collegium.Publisher.Sending.{
  Records, retry_later, refusal, no_answer, unverified, publication, vote_cast, interruption,
  Attempted, request_for,
}
use collegium.Publisher.Halting.{Result, idle, tried, Allowed-posts, publish_next-Result}

-- What the owner approved of a post: where it goes and what it says.
pub record Approval : Type 0 where
  pub id : ℕ
  pub decision_id : ℕ
  pub kind : PostKind
  pub submolt : Text
  pub title : Text
  pub reply_to_post : Text
  pub reply_to_comment : Option Text
  pub content : Text

abbrev pub approval : Post → Approval
approval p = record {
  id = p.id;
  decision_id = p.decision_id;
  kind = p.kind;
  submolt = p.submolt;
  title = p.title;
  reply_to_post = p.reply_to_post;
  reply_to_comment = p.reply_to_comment;
  content = p.content;
}

Records-approval :
    (p : Post) (outcome : Outcome) (change : Post → Post)
    → Records p outcome change
    → (r : Post) → approval (change r) ≡ approval r
Records-approval p outcome change retry_later r = refl
Records-approval p outcome change refusal r = refl
Records-approval p outcome change no_answer r = refl
Records-approval p outcome change unverified r = refl
Records-approval p outcome change publication r = refl
Records-approval p outcome change vote_cast r = refl
Records-approval p outcome change interruption r = refl

Result-approval :
    (forum : Request → Response) (answers : Text → Option Text) (now : ℕ) (o : Outbox) (run : Run)
    → Result forum answers now o run
    → map approval run.outbox.posts ≡ map approval o.posts
Result-approval forum answers now o run (idle why) = refl
Result-approval forum answers now o run (tried p o' found allowed a) =
    ap (map approval) a.saved
    ∙ map-update_where approval (λ r. r.id == p.id) a.change
        (update_post p.id (mark_publishing now) o').posts
        (Records-approval p run.outcome a.change a.recorded)
    ∙ map-update_where approval (λ r. r.id == p.id) (mark_publishing now) o'.posts (λ r. refl)
    ∙ ap (map approval) (Allowed-posts now o o' allowed)

-- Whatever the forum and the model answer, a run leaves every row of the outbox with the text, the
-- target and the kind that the owner approved, in the same order, and neither adds nor removes one.
pub publish_next-keeps_approval :
    (forum : Request → Response) (answers : Text → Option Text) (now at : ℕ) (o : Outbox)
    → map approval (publish_next forum answers now at o).outbox.posts ≡ map approval o.posts
publish_next-keeps_approval forum answers now at o =
    Result-approval forum answers now o _ (publish_next-Result forum answers now at o)

-- 429, too many requests.
abbrev pub asks_for_pace : Response → Bool
asks_for_pace (answered status body) = status == 429
asks_for_pace broken = false

-- A row that is no longer waiting to be sent, unless the forum asked to send it later.
abbrev pub Closed : Post → Response → Post → Type 0
Closed p response r =
    (r.id ≢ p.id) ⊎ ((is_approved r.status ≡ false) ⊎ (asks_for_pace response ≡ true))

abbrev is_retry : Outcome → Bool
is_retry (will_retry k) = true
is_retry _ = false

-- Where the outcome is to try again, the answer to `q` was 429.
abbrev Paces : Response → Outcome → Type 0
Paces response outcome = is_retry outcome ≡ true → asks_for_pace response ≡ true

read_created-pace :
    (response : Response) → read_created response ≡ pace → asks_for_pace response ≡ true
unfolding read_created
read_created-pace broken e = absurd (cc e)
read_created-pace (answered status body) e = elim (Bool-cases (status == 429)) [
  | inl paced ↦ paced
  | inr other ↦
      elim (Bool-cases (not (is_created_status status) || not (or_default body.success true))) [
        | inl bad ↦ absurd (cc (rw (other, bad) at e))
        | inr good ↦ absurd (cc (rw (other, good) at e))
      ]
]

module _ (forum : Request → Response) (answers : Text → Option Text) (at : ℕ) (p : Post)
    (o : Outbox) (response : Response) where
  after_check-Paces :
      (post_id : Text) (verdict : Option Bool)
      → Paces response (after_check forum answers at p post_id o verdict).0
  after_check-Paces post_id none e = absurd (cc e)
  after_check-Paces post_id (some false) e = absurd (cc e)
  after_check-Paces post_id (some true) e = absurd (cc e)

  after_id-Paces :
      (sent : List Request) (id : Text) (asked : Option Challenge)
      → Paces response (after_id forum answers at p sent id asked o).outcome
  after_id-Paces sent [] asked e = absurd (cc e)
  after_id-Paces sent (c ∷ s) none e = absurd (cc e)
  after_id-Paces sent (c ∷ s) (some challenge) e =
      after_check-Paces (c ∷ s) (check forum answers challenge).1 e

  after_creation-Paces :
      (sent : List Request) (a : Attempt)
      → read_created response ≡ a
      → Paces response (after_creation forum answers at p sent a o).outcome
  after_creation-Paces sent pace e h = read_created-pace response e
  after_creation-Paces sent refused e h = absurd (cc h)
  after_creation-Paces sent (created c) e h = after_id-Paces sent c.id c.challenge h

  after_upvote-Paces :
      (sent : List Request) (a : Attempt)
      → read_created response ≡ a
      → Paces response (after_upvote forum answers at p sent a o).outcome
  after_upvote-Paces sent pace e h = read_created-pace response e
  after_upvote-Paces sent refused e h = absurd (cc h)
  after_upvote-Paces sent (created c) e h = absurd (cc h)

module _ (forum : Request → Response) (answers : Text → Option Text) (now at : ℕ) where
  attempt-Paces :
      (p : Post) (o : Outbox)
      → Paces (forum (request_for p)) (attempt forum answers now at p o).outcome
  unfolding attempt send_vote send_content
  attempt-Paces p o =
      let marked = update_post p.id (mark_publishing now) o in
      let vote_request = upvote p.reply_to_post p.reply_to_comment in
      elim (Bool-cases (is_vote p.kind)) [
        | inl e ↦ rw e (
            after_upvote-Paces forum answers at p marked (forum vote_request) (vote_request ∷ [])
              (read_created (forum vote_request)) refl)
        | inr e ↦ rw e (
            after_creation-Paces forum answers at p marked (forum (creation_request p))
              (creation_request p ∷ []) (read_created (forum (creation_request p))) refl)
      ]

  despite_halt-Paces :
      (o : Outbox) (found : Option Post) (used : Option Outbox) (p : Post)
      → found ≡ some p
      → Paces (forum (request_for p)) (despite_halt forum answers now at found used o).outcome
  despite_halt-Paces o none used p e h = absurd (cc e)
  despite_halt-Paces o (some r) none p e h = absurd (cc h)
  despite_halt-Paces o (some r) (some resumed) p e h =
      let same : r ≡ p = cc e in
      subst (λ x. Paces (forum (request_for x)) (attempt forum answers now at r resumed).outcome)
        same (attempt-Paces r resumed) h

  publish_from-Paces :
      (o : Outbox) (halt : Option ℕ) (found : Option Post) (p : Post)
      → found ≡ some p
      → Paces (forum (request_for p)) (publish_from forum answers now at halt found o).outcome
  publish_from-Paces o none none p e h = absurd (cc e)
  publish_from-Paces o none (some r) p e h =
      let same : r ≡ p = cc e in
      subst (λ x. Paces (forum (request_for x)) (attempt forum answers now at r o).outcome) same
        (attempt-Paces r o) h
  publish_from-Paces o (some since) found p e h =
      despite_halt-Paces o found (consume_resume since now o) p e h

Records-Closed :
    (p : Post) (outcome : Outcome) (change : Post → Post) (response : Response)
    → Paces response outcome
    → Records p outcome change
    → (r : Post) → (r.id ≢ p.id) ⊎ (r.status ≡ publishing)
    → Closed p response (change r)
Records-Closed p outcome change response paces retry_later r h = inr (inr (paces refl))
Records-Closed p outcome change response paces refusal r h = inr (inl refl)
Records-Closed p outcome change response paces no_answer r h = inr (inl refl)
Records-Closed p outcome change response paces unverified r h = inr (inl refl)
Records-Closed p outcome change response paces publication r h = inr (inl refl)
Records-Closed p outcome change response paces vote_cast r h = inr (inl refl)
Records-Closed p outcome change response paces interruption r (inl other) = inl other
Records-Closed p outcome change response paces interruption r (inr marked) =
    inr (inl (ap is_approved marked))

-- The request `q` went out for an approved post of the outbox.
pub record Sent (forum : Request → Response) (now : ℕ) (o : Outbox) (q : Request) (run : Run)
    : Type 0 where
  pub post : Post
  pub listed : Memᴰ post o.posts
  pub approved : is_approved post.status ≡ true
  pub named : q ≡ request_for post
  pub paced : is_ready now o post.kind ≡ true
  pub closed : All (Closed post (forum q)) run.outbox.posts

found-facts :
    (now : ℕ) (o : Outbox) (p : Post)
    → next_post now o ≡ some p
    → Memᴰ p o.posts × (is_candidate now o p ≡ true)
unfolding next_post
found-facts now o p e =
    mem-filter (is_candidate now o) p o.posts
      (least-mem (λ s r. ltb s.created_at r.created_at) (filter (is_candidate now o) o.posts) e)

Attempted-Closed :
    (now : ℕ) (p : Post) (o : Outbox) (sent : List Request) (run : Run) (response : Response)
    → Paces response run.outcome
    → Attempted p (update_post p.id (mark_publishing now) o) sent run
    → All (Closed p response) run.outbox.posts
Attempted-Closed now p o sent run response paces a = rw a.saved (
    update_where-All (λ r. (r.id ≢ p.id) ⊎ (r.status ≡ publishing)) (Closed p response)
      (λ r. r.id == p.id) a.change (update_post p.id (mark_publishing now) o).posts
      (λ r e h. Records-Closed p run.outcome a.change response paces a.recorded r h)
      (λ r e h. inl (ground (arith, e)))
      (update_where-All (λ r. r ≡ r) (λ r. (r.id ≢ p.id) ⊎ (r.status ≡ publishing))
        (λ r. r.id == p.id) (mark_publishing now) o.posts (λ r e h. inr refl)
        (λ r e h. inl (ground (arith, e))) (All-any o.posts)))

Result-Sent :
    (forum : Request → Response) (answers : Text → Option Text) (now : ℕ) (o : Outbox) (run : Run)
    (q : Request) (more : List Request)
    → Result forum answers now o run
    → ((p : Post) → next_post now o ≡ some p → Paces (forum (request_for p)) run.outcome)
    → run.sent ≡ q ∷ more
    → Sent forum now o q run
Result-Sent forum answers now o run q more (idle why) paces e = cc
Result-Sent forum answers now o run q more (tried p o' found allowed a) paces e =
    let facts = found-facts now o p found in
    let named : q ≡ request_for p = cc (e, a.requests) in
    record {
      post = p;
      listed = facts.0;
      approved = ground (arith, facts.1);
      named = named;
      paced = ground (arith, facts.1);
      closed =
          Attempted-Closed now p o' (request_for p ∷ []) run (forum q)
            (subst (λ x. Paces (forum x) run.outcome) (sym named) (paces p found)) a;
    }

-- Whatever a run sends first is the request of a post that the owner approved and that still waited,
-- and every earlier attempt of its kind is at least the kind's interval ago. After the run no row
-- with that post's id waits to be sent, unless the forum answered that request with 429.
pub publish_next-Sent :
    (forum : Request → Response) (answers : Text → Option Text) (now at : ℕ) (o : Outbox)
    (q : Request) (more : List Request)
    → (publish_next forum answers now at o).sent ≡ q ∷ more
    → Sent forum now o q (publish_next forum answers now at o)
unfolding publish_next
publish_next-Sent forum answers now at o q more e =
    Result-Sent forum answers now o _ q more (publish_next-Result forum answers now at o)
      (λ p found.
        publish_from-Paces forum answers now at o (halted_since o) (next_post now o) p found)
      e
