-- ===== src/Outbox.antt =====
-- The publisher's outbox (db/migrations: community_posts and publisher_resumes): what the owner and
-- the publisher share. Times are seconds.
use collegium.Prelude.{ℕ, Bool, true, false, Option, List}
use collegium.Text.{Text}

pub data PostKind : Type 0 where
  post comment vote : PostKind

pub data PostStatus : Type 0 where
  approved publishing published failed withdrawn : PostStatus

pub data Verification : Type 0 where
  passed rejected : Verification

-- What the error column says: a refusal for pace, another failure of the call, an answer without an
-- id, or a post that stays hidden.
pub data Trouble : Type 0 where
  rate_limited call_failed no_id hidden : Trouble

pub record Post : Type 0 where
  pub id : ℕ
  pub decision_id : ℕ
  pub domain_id : Option ℕ
  pub about_id : Option ℕ
  pub kind : PostKind
  pub submolt : Text
  pub title : Text
  pub reply_to_post : Text
  pub reply_to_comment : Option Text
  pub content : Text
  pub status : PostStatus
  pub external_id : Option Text
  pub url : Option Text
  pub verification : Option Verification
  pub error : Option Trouble
  pub created_at : ℕ
  pub attempted_at : Option ℕ
  pub published_at : Option ℕ

pub record Resume : Type 0 where
  pub id : ℕ
  pub created_at : ℕ
  pub used_at : Option ℕ

pub record Outbox : Type 0 where
  pub next_id : ℕ
  pub posts : List Post
  pub resumes : List Resume
  -- The rows that another transaction has locked.
  pub locked : List ℕ

abbrev pub is_approved : PostStatus → Bool
is_approved approved = true
is_approved _ = false

abbrev pub is_failed : PostStatus → Bool
is_failed failed = true
is_failed _ = false

abbrev pub same_kind : PostKind → PostKind → Bool
same_kind post post = true
same_kind comment comment = true
same_kind vote vote = true
same_kind _ _ = false

abbrev pub is_vote : PostKind → Bool
is_vote vote = true
is_vote _ = false
