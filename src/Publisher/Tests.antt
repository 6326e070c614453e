-- ===== src/Publisher/Tests.antt =====
-- The publisher on small examples.
use collegium.Prelude.{◌≡◌, refl, true, Option, none, some, [], ◌∷◌, least, map, sort}
use collegium.Text.{Text, codes}
use collegium.Outbox.{post, approved, Post, Outbox}
use collegium.Publisher.{
  Request, create_post, verify, Response, answered, Fields, missing, given, Challenge, read_created,
  read_verified, publish_next, attempt, send_content, check, next_post, halted_since, is_ready,
  last_verified, published_at, will_retry,
}
use collegium.Publisher.Halting.{Result, publish_next-Result}
use collegium.Publisher.Settling.{approval, publish_next-keeps_approval, Sent, publish_next-Sent}

abbrev a_post : Post
a_post = record {
  id = 1;
  decision_id = 10;
  domain_id = none;
  about_id = none;
  kind = post;
  submolt = codes "agents";
  title = codes "A title";
  reply_to_post = [];
  reply_to_comment = none;
  content = codes "A text";
  status = approved;
  external_id = none;
  url = none;
  verification = none;
  error = none;
  created_at = 500;
  attempted_at = none;
  published_at = none;
}

abbrev one_post : Outbox
one_post = record { next_id = 2; posts = a_post ∷ []; resumes = []; locked = [] }

abbrev no_fields : Fields
no_fields = record { id = missing; verification_required = missing; verification = missing }

abbrev puzzle : Challenge
puzzle = record { challenge_text = codes "two and two"; verification_code = codes "k" }

-- The forum creates the post, asks for verification, and accepts the answer.
abbrev friendly : Request → Response
friendly (verify code answer) =
    answered 200 (record { success = some true; fields = no_fields; nested = none })
friendly request = answered 201 (record {
  success = none;
  fields = no_fields;
  nested = some (record {
    id = given (codes "p1");
    verification_required = given true;
    verification = given puzzle;
  });
})

abbrev four : Text → Option Text
four challenge = some (codes "4.00")

abbrev first_request : Request
first_request = create_post (codes "agents") (codes "A title") (codes "A text")

sends_then_verifies :
    (publish_next friendly four 1000 1005 one_post).sent
    ≡ first_request ∷ verify (codes "k") (codes "4.00") ∷ []
unfolding publish_next next_post halted_since is_ready last_verified least sort attempt send_content
    read_created check
sends_then_verifies = refl

ends_published : (publish_next friendly four 1000 1005 one_post).outcome ≡ published_at 1
unfolding publish_next next_post halted_since is_ready last_verified least sort attempt send_content
    read_created check read_verified
ends_published = refl

-- Turned away for its pace, the post waits again.
waits_again :
    (publish_next
      (λ q. answered 429 (record { success = none; fields = no_fields; nested = none }))
      four
      1000
      1005
      one_post).outcome
    ≡ will_retry 1
unfolding publish_next next_post halted_since is_ready last_verified least sort attempt send_content
    read_created
waits_again = refl

publish_next-Result_example :
    Result friendly four 1000 one_post (publish_next friendly four 1000 1005 one_post)
publish_next-Result_example = publish_next-Result friendly four 1000 1005 one_post

publish_next-keeps_approval_example :
    map approval (publish_next friendly four 1000 1005 one_post).outbox.posts
    ≡ map approval one_post.posts
publish_next-keeps_approval_example = publish_next-keeps_approval friendly four 1000 1005 one_post

publish_next-Sent_example :
    Sent friendly 1000 one_post first_request (publish_next friendly four 1000 1005 one_post)
publish_next-Sent_example =
    publish_next-Sent friendly four 1000 1005 one_post first_request
      (verify (codes "k") (codes "4.00") ∷ []) sends_then_verifies
