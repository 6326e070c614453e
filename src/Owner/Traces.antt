-- ===== src/Owner/Traces.antt =====
-- The owner and the publisher take turns on the outbox (src/collegium/owner.py and
-- src/collegium/publisher.py).
use collegium.Prelude.{
  ℕ, ◌≡◌, sym, subst, Bool, Option, List, [], ◌∷◌, All, All-mem, map, if◌then◌else◌,
}
use collegium.Text.{Text}
use collegium.Community.{problems, reply_problems}
use collegium.Outbox.{PostKind, post, comment, vote, Post, is_vote, same_kind}
use collegium.Publisher.{
  Request, create_post, create_comment, upvote as upvote_of, verify, Response, publish_next,
}
use collegium.Publisher.Sending.{request_for}
use collegium.Publisher.Settling.{
  Approval, approval, publish_next-keeps_approval, publish_next-Sent,
}
use collegium.Owner.{
  Desk, Edits, done, resolve_decision, upvote, withdraw_post, retry_post, grant_publisher_resume,
  with_outbox,
}
use collegium.Owner.Fitting.{
  FitsAs, Fits, AllFit, Ensures, resolve_decision-Fits, upvote-Fits, withdraw_post-Fits,
  retry_post-Fits, grant-Fits,
}

-- One operation that succeeds: five of the owner's, and a run of the publisher with whatever the forum
-- and the model answer; or other transactions take locks or let them go. One that raises changes
-- nothing.
pub data Step (d : Desk) : Desk → Type 0 where
  resolves :
      (now decision_id : ℕ) (approving : Bool) (reason : Option Text) (edits : Edits)
      {name : Option Text} {d' : Desk}
      → resolve_decision now decision_id approving reason edits d ≡ done (name, d')
      → Step d d'
  upvotes : (now : ℕ) (url : Text) {d' : Desk} → upvote now url d ≡ done d' → Step d d'
  withdraws : (post_id : ℕ) {d' : Desk} → withdraw_post post_id d ≡ done d' → Step d d'
  retries : (post_id : ℕ) {d' : Desk} → retry_post post_id d ≡ done d' → Step d d'
  grants : (now : ℕ) → Step d (grant_publisher_resume now d)
  publishes :
      (forum : Request → Response) (answers : Text → Option Text) (now at : ℕ)
      → Step d (with_outbox (λ o. (publish_next forum answers now at o).outbox) d)
  -- Another transaction takes locks of rows, or lets them go.
  locks : (ids : List ℕ) → Step d (with_outbox (λ o. record o { locked = ids }) d)

-- Any number of them, from a desk whose outbox is empty.
pub data Reach : Desk → Type 0 where
  start : (d : Desk) → d.outbox.posts ≡ [] → Reach d
  next : {d d' : Desk} → Reach d → Step d d' → Reach d'

abbrev FitsApproval : Approval → Type 0
FitsApproval a = FitsAs a.kind a.title a.content a.submolt

to_approvals : (posts : List Post) → All Fits posts → All FitsApproval (map approval posts)
to_approvals [] h = tt
to_approvals (p ∷ ps) h = (h.0, to_approvals ps h.1)

of_approvals : (posts : List Post) → All FitsApproval (map approval posts) → All Fits posts
of_approvals [] h = tt
of_approvals (p ∷ ps) h = (h.0, of_approvals ps h.1)

Step-AllFit : {d d' : Desk} → Step d d' → AllFit d → AllFit d'
Step-AllFit {d} (resolves now decision_id approving reason edits e) h =
    subst (Ensures (λ r. AllFit r.1)) e
      (resolve_decision-Fits now decision_id approving reason edits d h)
Step-AllFit {d} (upvotes now url e) h = subst (Ensures AllFit) e (upvote-Fits now url d h)
Step-AllFit {d} (withdraws post_id e) h = subst (Ensures AllFit) e (withdraw_post-Fits post_id d h)
Step-AllFit {d} (retries post_id e) h = subst (Ensures AllFit) e (retry_post-Fits post_id d h)
Step-AllFit {d} (grants now) h = grant-Fits now d h
Step-AllFit {d} (locks ids) h = h
Step-AllFit {d} (publishes forum answers now at) h =
    of_approvals (publish_next forum answers now at d.outbox).outbox.posts (
      subst (All FitsApproval) (sym (publish_next-keeps_approval forum answers now at d.outbox))
        (to_approvals d.outbox.posts h))

-- However the owner and the publisher take turns, from an empty outbox on, every row of the outbox
-- keeps to the forum's bounds: a post has a title, a text and a submolt without a problem, a reply has
-- a text without one, and a vote has no text.
pub Reach-AllFit : (d : Desk) → Reach d → AllFit d
Reach-AllFit d (start _ e) = subst (All Fits) (sym e) tt
Reach-AllFit d (next r s) = Step-AllFit s (Reach-AllFit _ r)

-- What may be sent to the forum first: a post or a reply without a problem, or an upvote.
abbrev pub Proper : Request → Type 0
Proper (create_post submolt title content) = problems title content submolt ≡ []
Proper (create_comment post_id content parent_id) = reply_problems content ≡ []
Proper (upvote_of post_id comment_id) = Unit
Proper (verify code answer) = ⊥

kind-Proper :
    (p : Post) (kind : PostKind)
    → FitsAs kind p.title p.content p.submolt
    → Proper (
        if is_vote kind
        then upvote_of p.reply_to_post p.reply_to_comment
        else if same_kind kind post
        then create_post p.submolt p.title p.content
        else create_comment p.reply_to_post p.content p.reply_to_comment)
kind-Proper p post h = h
kind-Proper p comment h = h
kind-Proper p vote h = tt

request_for-Proper : (p : Post) → Fits p → Proper (request_for p)
request_for-Proper p h = kind-Proper p p.kind h

-- However the owner and the publisher have taken turns from an empty outbox on, what a run of the
-- publisher sends first is an upvote, or a post or a reply whose text is within the forum's bounds.
pub Reach-Proper :
    (forum : Request → Response) (answers : Text → Option Text) (now at : ℕ) (d : Desk)
    (q : Request) (more : List Request)
    → Reach d
    → (publish_next forum answers now at d.outbox).sent ≡ q ∷ more
    → Proper q
Reach-Proper forum answers now at d q more r e =
    let s = publish_next-Sent forum answers now at d.outbox q more e in
    subst Proper (sym s.named)
      (request_for-Proper s.post (All-mem Fits s.post d.outbox.posts s.listed (Reach-AllFit d r)))
