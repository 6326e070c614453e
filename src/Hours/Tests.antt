-- ===== src/Hours/Tests.antt =====
-- Working hours on small examples: Monday and Friday, nine to five, in a zone whose local time is
-- the instant's own.
use collegium.Prelude.{ℕ, ◌*◌, ◌+◌, ◌/◌, ◌%◌, ◌≤◌, ◌≡◌, refl, true, false, [], ◌∷◌, arith}
use collegium.Hours.{
  Local, ZoneInfo, WorkingHours, local, is_open, is_open_at, opening_from, next_opening,
}
use collegium.Hours.Openings.{IsOpening, next_opening-IsOpening, next_opening-first}

abbrev microseconds_a_day : ℕ
microseconds_a_day = 86400000000

abbrev plain_local : ℕ → Local
plain_local now = record { day = now / microseconds_a_day; time = now % microseconds_a_day }

abbrev plain_zone : ZoneInfo
plain_zone = record {
  local_of = plain_local;
  instant_of = λ t. t.day * microseconds_a_day + t.time;
}

abbrev office : WorkingHours
office = record { start = 32400000000; end = 61200000000; days = 0 ∷ 4 ∷ []; tz = plain_zone }

-- Day 1 is a Monday. It is noon there, and day 2 is a Tuesday.
abbrev monday_noon : ℕ
monday_noon = 86400000000 + 43200000000

abbrev tuesday_noon : ℕ
tuesday_noon = 172800000000 + 43200000000

open_then : is_open office monday_noon ≡ true
unfolding is_open is_open_at
open_then = refl

closed_then : is_open office tuesday_noon ≡ false
unfolding is_open is_open_at
closed_then = refl

-- After Monday noon the next opening is Friday's.
friday_next : next_opening office monday_noon ≡ record { day = 5; time = 32400000000 }
unfolding next_opening opening_from
friday_next = refl

next_opening-IsOpening_example :
    IsOpening office (local office monday_noon) (next_opening office monday_noon)
next_opening-IsOpening_example = next_opening-IsOpening office monday_noon 4 (omega arith) refl

next_opening-first_example : (next_opening office monday_noon).day ≤ 8
next_opening-first_example = next_opening-first office monday_noon 8 refl refl
