-- ===== src/Owner/Tables.antt =====
-- What the owner's operations read and write (src/collegium/owner.py): memory and the queue, the
-- outbox, and the decisions, programs and approved feeds of db/migrations.
use collegium.Prelude.{ℕ, suc, Option, none, List, [], ◌∷◌, ◌++◌, String}
use collegium.Text.{Text}
use collegium.Community.{Problem}
use collegium.Db.{Db}
use collegium.Outbox.{Outbox, Post, PostKind, approved}

pub data Topic : Type 0 where
  program_topic source_topic post_topic reply_topic vote_topic other_topic : Topic

pub data DecisionStatus : Type 0 where
  proposed approved_by_owner rejected_by_owner other_status : DecisionStatus

-- The keys of `details` that are read; one that it lacks is `none`.
pub record Details : Type 0 where
  pub domain_id : Option ℕ
  pub hypothesis_id : Option ℕ
  pub observation_id : Option ℕ
  pub title : Option Text
  pub content : Option Text
  pub submolt : Option Text
  pub reply_to_post : Option Text
  pub reply_to_comment : Option Text
  pub look_into : Option Text
  pub feed_url : Option Text

abbrev pub no_details : Details
no_details = record {
  domain_id = none;
  hypothesis_id = none;
  observation_id = none;
  title = none;
  content = none;
  submolt = none;
  reply_to_post = none;
  reply_to_comment = none;
  look_into = none;
  feed_url = none;
}

pub record Decision : Type 0 where
  pub id : ℕ
  pub topic : Topic
  pub status : DecisionStatus
  pub rationale : Option String
  pub details : Details

pub data ProgramStatus : Type 0 where
  program_proposed program_active program_paused program_closed : ProgramStatus

pub record Program : Type 0 where
  pub id : ℕ
  pub name : Text
  pub status : ProgramStatus

pub data FeedStatus : Type 0 where
  feed_active feed_paused feed_retired : FeedStatus

pub record Feed : Type 0 where
  pub domain_id : ℕ
  pub url : Text
  pub title : Option Text
  pub status : FeedStatus

pub record Desk : Type 0 where
  pub next_id : ℕ
  pub db : Db
  pub outbox : Outbox
  pub decisions : List Decision
  pub programs : List Program
  pub feeds : List Feed

-- The owner's edits of a draft: the keys of `post` that are given.
pub record Edits : Type 0 where
  pub title : Option Text
  pub content : Option Text
  pub submolt : Option Text

-- Why an operation raises: an OwnerError, or what Python or the database raises.
pub data Refusal : Type 0 where
  unknown_status no_longer_waiting not_a_thread not_recorded own_text already_voted : Refusal
  program_not_open post_not_waiting post_not_failed : Refusal
  no_objection bad_severity no_such_hypothesis not_live : Refusal
  bad_text : List Problem → Refusal
  missing_key unique_violation : Refusal

pub data Answer {ℓ} (A : Type ℓ) : Type ℓ where
  refused : Refusal → Answer A
  done : A → Answer A

abbrev pub and_then {ℓ κ} : {A : Type ℓ} {B : Type κ} → Answer A → (A → Answer B) → Answer B
and_then (refused why) k = refused why
and_then (done a) k = k a

abbrev pub with_outbox : (Outbox → Outbox) → Desk → Desk
with_outbox change d = record d { outbox = change d.outbox }

-- A new row of the outbox, with the columns' defaults.
abbrev pub new_post : ℕ → ℕ → PostKind → ℕ → Post
new_post now post_id kind decision_id = record {
  id = post_id;
  decision_id = decision_id;
  domain_id = none;
  about_id = none;
  kind = kind;
  submolt = [];
  title = [];
  reply_to_post = [];
  reply_to_comment = none;
  content = [];
  status = approved;
  external_id = none;
  url = none;
  verification = none;
  error = none;
  created_at = now;
  attempted_at = none;
  published_at = none;
}

-- INSERT INTO community_posts: `fill` gives the columns of the new row.
unfoldable pub insert_post : ℕ → PostKind → ℕ → (Post → Post) → Outbox → Outbox
insert_post now kind decision_id fill o = record o {
  next_id = suc o.next_id;
  posts = o.posts ++ fill (new_post now o.next_id kind decision_id) ∷ [];
}
