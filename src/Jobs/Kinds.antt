-- ===== src/Jobs/Kinds.antt =====
-- The vocabulary of a job (jobs.py, roles/__init__.py and the CHECKs of the jobs table): kinds,
-- statuses, and the keys that the roles put into a payload. UUIDs are numbers that are only compared.
use Prim.Native.Nat.{ℕ}
use mathlib.Core.Option.{Option, none}
use mathlib.Core.List.{List}
use collegium.Text.{Text}

-- `record_verdict` is the kind "record", and `map_entities` the kind "map".
pub data Kind : Type 0 where
  scout research review record_verdict map_entities resolve strategize corroborate ask draft reply
        announce :
      Kind

-- A number for each kind, to compare kinds by.
abbrev pub kind_code : Kind → ℕ
kind_code scout = 0
kind_code research = 1
kind_code review = 2
kind_code record_verdict = 3
kind_code map_entities = 4
kind_code resolve = 5
kind_code strategize = 6
kind_code corroborate = 7
kind_code ask = 8
kind_code draft = 9
kind_code reply = 10
kind_code announce = 11

pub data Status : Type 0 where
  pending running succeeded failed : Status

pub data Verdict : Type 0 where
  accept reject undecided : Verdict

-- Why a change of mind is announced.
pub data Reason : Type 0 where
  retired superseded : Reason

-- A key that the dict lacks is `none`.
pub record Payload : Type 0 where
  pub domain_id : Option ℕ
  pub hypothesis_id : Option ℕ
  pub observation_id : Option ℕ
  pub question_id : Option ℕ
  pub source_id : Option ℕ
  pub goal_id : Option ℕ
  pub follows : Option ℕ
  pub evidence_ids : Option (List ℕ)
  pub round : Option ℕ
  pub verdict : Option Verdict
  pub reason : Option Reason
  pub superseded_by : Option ℕ
  pub focus : Option Text
  pub focus_from : Option Text

-- The empty dict; a payload is written as an update of it.
abbrev pub no_payload : Payload
no_payload = record {
  domain_id = none;
  hypothesis_id = none;
  observation_id = none;
  question_id = none;
  source_id = none;
  goal_id = none;
  follows = none;
  evidence_ids = none;
  round = none;
  verdict = none;
  reason = none;
  superseded_by = none;
  focus = none;
  focus_from = none;
}
