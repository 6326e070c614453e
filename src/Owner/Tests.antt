-- ===== src/Owner/Tests.antt =====
-- The owner's operations on a small example: a drafted post is approved and sent.
use collegium.Prelude.{◌≡◌, refl, true, false, Option, none, some, [], ◌∷◌, least, sort}
use collegium.Text.{Text, codes, strip}
use collegium.Community.{problems}
use collegium.Jobs.Attempts.{no_jobs}
use collegium.Memory.{no_memory}
use collegium.Outbox.{Post, post}
use collegium.Publisher.{
  Request, create_post, Response, broken, publish_next, next_post, halted_since, is_ready,
  last_verified, attempt, send_content, read_created,
}
use collegium.Owner.{
  Desk, Decision, Details, no_details, post_topic, proposed, approved_by_owner, Edits, done,
  refused, no_longer_waiting, resolve_decision, resolve_waiting, queue_post, insert_post,
  settle_programs, new_post,
}
use collegium.Owner.Fitting.{AllFit}
use collegium.Owner.Traces.{resolves, Reach, start, next, Reach-AllFit, Proper, Reach-Proper}

abbrev draft : Details
draft = record no_details {
  title = some (codes " A title");
  content = some (codes "A text");
  submolt = some (codes "agents");
}

abbrev drafted : Decision
drafted = record {
  id = 10;
  topic = post_topic;
  status = proposed;
  rationale = none;
  details = draft;
}

abbrev desk : Desk
desk = record {
  next_id = 11;
  db = record { memory = no_memory; queue = no_jobs };
  outbox = record { next_id = 1; posts = []; resumes = []; locked = [] };
  decisions = drafted ∷ [];
  programs = [];
  feeds = [];
}

abbrev no_edits : Edits
no_edits = record { title = none; content = none; submolt = none }

abbrev queued : Post
queued = record (new_post 500 1 post 10) {
  submolt = codes "agents";
  title = codes "A title";
  content = codes "A text";
}

abbrev approved_desk : Desk
approved_desk = record desk {
  outbox = record { next_id = 2; posts = queued ∷ []; resumes = []; locked = [] };
  decisions = record drafted { status = approved_by_owner } ∷ [];
}

approves : resolve_decision 500 10 true none no_edits desk ≡ done (none, approved_desk)
unfolding resolve_decision resolve_waiting queue_post insert_post settle_programs problems strip
approves = refl

-- A decision is resolved once.
once : resolve_decision 600 10 false none no_edits approved_desk ≡ refused no_longer_waiting
unfolding resolve_decision
once = refl

reached : Reach approved_desk
reached = next (start desk refl) (resolves 500 10 true none no_edits approves)

Reach-AllFit_example : AllFit approved_desk
Reach-AllFit_example = Reach-AllFit approved_desk reached

abbrev silent : Request → Response
silent request = broken

abbrev no_answer : Text → Option Text
no_answer challenge = none

abbrev sent_post : Request
sent_post = create_post (codes "agents") (codes "A title") (codes "A text")

sends : (publish_next silent no_answer 5000 5001 approved_desk.outbox).sent ≡ sent_post ∷ []
unfolding publish_next next_post halted_since is_ready last_verified least sort attempt send_content
    read_created
sends = refl

Reach-Proper_example : Proper sent_post
Reach-Proper_example =
    Reach-Proper silent no_answer 5000 5001 approved_desk sent_post [] reached sends
