-- ===== src/Publisher/Halting.antt =====
-- Which runs of the publisher attempt a post, and what a halt allows (`_publish_next` and
-- `_consume_resume` in src/collegium/publisher.py).
use collegium.Prelude.{
  ℕ, ◌≡◌, refl, sym, ap, ◌∙◌, Option, none, some, [], ◌∷◌, Option-cases, inl, inr, map_option,
}
use mathlib.Core.Option.{some-injective}
use collegium.Text.{Text}
use collegium.Outbox.{Post, Resume, Outbox}
use collegium.Publisher.Client.{Request, Response}
use collegium.Publisher.{
  Outcome, halted, nothing, Run, update_post, mark_publishing, stop, publish_next, publish_from,
  despite_halt, halted_since, next_post, consume_resume, pending_resume, use_resume,
}
use collegium.Publisher.Sending.{Attempted, request_for, attempt-Attempted}

-- `o'` is `o` with the oldest pending resume used.
pub record Resumed (since now : ℕ) (o o' : Outbox) : Type 0 where
  pub resume : Resume
  pub pending : pending_resume since o ≡ some resume
  pub outbox : o' ≡ use_resume now resume.id o

consume_resume-some :
    (since now : ℕ) (o : Outbox) (r : Resume)
    → pending_resume since o ≡ some r
    → consume_resume since now o ≡ some (use_resume now r.id o)
unfolding consume_resume
consume_resume-some since now o r e = ap (map_option (λ s. use_resume now s.id o)) e

consume_resume-none :
    (since now : ℕ) (o : Outbox) → pending_resume since o ≡ none → consume_resume since now o ≡ none
unfolding consume_resume
consume_resume-none since now o e = ap (map_option (λ s. use_resume now s.id o)) e

pub consume_resume-Resumed :
    (since now : ℕ) (o o' : Outbox) → consume_resume since now o ≡ some o' → Resumed since now o o'
consume_resume-Resumed since now o o' e = elim (Option-cases (pending_resume since o)) [
  | inl no_resume ↦ absurd (cc (e, consume_resume-none since now o no_resume))
  | inr (r, found) ↦ record {
    resume = r;
    pending = found;
    outbox = sym (some-injective _ _ (sym (consume_resume-some since now o r found) ∙ e));
  }
]

-- The outbox that a run may attempt a post from.
pub data Allowed (now : ℕ) (o : Outbox) : Outbox → Type 0 where
  unhalted : halted_since o ≡ none → Allowed now o o
  resumed :
      {since : ℕ} {o' : Outbox}
      → halted_since o ≡ some since
      → Resumed since now o o'
      → Allowed now o o'

pub Allowed-posts : (now : ℕ) (o o' : Outbox) → Allowed now o o' → o'.posts ≡ o.posts
Allowed-posts now o o' (unhalted e) = refl
Allowed-posts now o o' (resumed e r) = ap (λ x. x.posts) r.outbox

-- Why a run attempts nothing.
pub data Idles (o : Outbox) (found : Option Post) : Outcome → Type 0 where
  no_post : found ≡ none → Idles o found nothing
  halted_without_post :
      {since : ℕ} → halted_since o ≡ some since → found ≡ none → Idles o found halted
  halted_without_resume :
      {since : ℕ}
      → halted_since o ≡ some since
      → pending_resume since o ≡ none
      → Idles o found halted

-- What a run is: it attempts nothing, or the post that is found.
pub data Result (forum : Request → Response) (answers : Text → Option Text) (now : ℕ) (o : Outbox)
    : Run → Type 0 where
  idle :
      {outcome : Outcome}
      → Idles o (next_post now o) outcome
      → Result forum answers now o (stop forum answers outcome o)
  tried :
      {run : Run} (p : Post) (o' : Outbox)
      → next_post now o ≡ some p
      → Allowed now o o'
      → Attempted p (update_post p.id (mark_publishing now) o') (request_for p ∷ []) run
      → Result forum answers now o run

module _ (forum : Request → Response) (answers : Text → Option Text) (now at : ℕ) (o : Outbox) where
  despite_halt-Result :
      (since : ℕ) (found : Option Post) (used : Option Outbox)
      → halted_since o ≡ some since
      → next_post now o ≡ found
      → consume_resume since now o ≡ used
      → Result forum answers now o (despite_halt forum answers now at found used o)
  despite_halt-Result since none used h e u = idle (halted_without_post h e)
  despite_halt-Result since (some p) none h e u = elim (Option-cases (pending_resume since o)) [
    | inl no_resume ↦ idle (halted_without_resume h no_resume)
    | inr (r, found) ↦ absurd (cc (u, consume_resume-some since now o r found))
  ]
  despite_halt-Result since (some p) (some o') h e u =
      tried p o' e (resumed h (consume_resume-Resumed since now o o' u))
        (attempt-Attempted forum answers now at p o')

  publish_from-Result :
      (halt : Option ℕ) (found : Option Post)
      → halted_since o ≡ halt
      → next_post now o ≡ found
      → Result forum answers now o (publish_from forum answers now at halt found o)
  publish_from-Result none none h e = idle (no_post e)
  publish_from-Result none (some p) h e =
      tried p o e (unhalted h) (attempt-Attempted forum answers now at p o)
  publish_from-Result (some since) found h e =
      despite_halt-Result since found (consume_resume since now o) h e refl

-- A run of the publisher is one of two. It sends nothing and leaves the outbox as it is: nothing is
-- found to publish, or a halt is on and no pending resume is later than it. Or it attempts the post
-- that is found, unhalted, or halted with the oldest pending resume used: the first request carries
-- that row's own text and target, the row is marked publishing first, and the outcome is recorded on
-- it and on nothing else.
pub publish_next-Result :
    (forum : Request → Response) (answers : Text → Option Text) (now at : ℕ) (o : Outbox)
    → Result forum answers now o (publish_next forum answers now at o)
unfolding publish_next
publish_next-Result forum answers now at o =
    publish_from-Result forum answers now at o (halted_since o) (next_post now o) refl refl
