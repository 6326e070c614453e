-- ===== src/Publisher/Client.antt =====
-- MoltbookClient (src/collegium/publisher.py): what is sent to the forum, and how its answer is read.
use collegium.Prelude.{
  ℕ, Bool, true, false, not, ◌&&◌, ◌||◌, Option, none, some, [], ◌==◌, if◌then◌else◌, or_default,
  is_some,
}
use collegium.Text.{Text}

pub data Request : Type 0 where
  create_post : (submolt title content : Text) → Request
  create_comment : (post_id content : Text) → (parent_id : Option Text) → Request
  upvote : (post_id : Text) → (comment_id : Option Text) → Request
  verify : (code answer : Text) → Request

pub record Challenge : Type 0 where
  pub challenge_text : Text
  pub verification_code : Text

-- What a JSON object has for a key.
pub data Entry {ℓ} (A : Type ℓ) : Type ℓ where
  missing null : Entry A
  given : A → Entry A

-- The keys that are read of a JSON object.
pub record Fields : Type 0 where
  pub id : Entry Text
  pub verification_required : Entry Bool
  pub verification : Entry Challenge

-- fields.get(key)
abbrev pub entry {ℓ} : {A : Type ℓ} → Entry A → Option A
entry missing = none
entry null = none
entry (given a) = some a

-- A body, with the post or comment that it may hold.
pub record Body : Type 0 where
  pub success : Option Bool
  pub fields : Fields
  pub nested : Option Fields

-- An answer with its status code, or a call that raised.
pub data Response : Type 0 where
  answered : ℕ → Body → Response
  broken : Response

-- What the caller sees: the created object's id ("" if it has none) and its challenge, if the answer
-- asks for verification.
pub record Created : Type 0 where
  pub id : Text
  pub challenge : Option Challenge

-- RateLimited, another exception, or an answer.
pub data Attempt : Type 0 where
  pace refused : Attempt
  created : Created → Attempt

abbrev pub or_else {ℓ} : {A : Type ℓ} → Entry A → Entry A → Entry A
or_else missing outer = outer
or_else null outer = null
or_else (given a) outer = given a

-- `{**body, **(body.get("post") or {})}`: a key of the inner object wins, also a null.
abbrev pub merge : Fields → Option Fields → Fields
merge outer none = outer
merge outer (some inner) = record {
  id = or_else inner.id outer.id;
  verification_required = or_else inner.verification_required outer.verification_required;
  verification = or_else inner.verification outer.verification;
}

abbrev pub no_challenge : Challenge
no_challenge = record { challenge_text = []; verification_code = [] }

-- `created.get("verification_required") or challenge`
abbrev pub asked : Fields → Option Challenge
asked f =
    if or_default (entry f.verification_required) false || is_some (entry f.verification)
    then some (or_default (entry f.verification) no_challenge)
    else none

abbrev pub is_created_status : ℕ → Bool
is_created_status status = status == 200 || status == 201

-- The end of create_post, create_comment and upvote.
unfoldable pub read_created : Response → Attempt
read_created broken = refused
read_created (answered status body) =
    let fields = merge body.fields body.nested in
    if status == 429
    then pace
    else if not (is_created_status status) || not (or_default body.success true)
    then refused
    else created (record { id = or_default (entry fields.id) []; challenge = asked fields })

-- `none` is an exception of the call, which nothing catches here.
unfoldable pub read_verified : Response → Option Bool
read_verified broken = none
read_verified (answered status body) = some (status == 200 && or_default body.success false)
