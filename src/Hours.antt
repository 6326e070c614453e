-- ===== src/Hours.antt =====
-- Working hours (src/collegium/hours.py). A local moment is a date's ordinal and the microseconds
-- since its midnight. `tz` is the zone's data, which is not the program's: the local reading of an
-- instant, and the instant of a local reading. Two moments of one zone are compared by their local
-- readings, as Python compares datetimes that share their tzinfo.
pub mod Openings
mod Tests
use collegium.Prelude.{
  ℕ, zero, suc, ◌+◌, ◌-◌, ◌%◌, Bool, true, false, ◌&&◌, ◌||◌, List, [], ◌∷◌, ltb, leb, ◌==◌,
  if◌then◌else◌, any,
}

pub record Local : Type 0 where
  pub day : ℕ
  pub time : ℕ

-- time.max, 23:59:59.999999
abbrev pub time_max : ℕ
time_max = 86399999999

pub record ZoneInfo : Type 0 where
  pub local_of : ℕ → Local
  pub instant_of : Local → ℕ

pub record WorkingHours : Type 0 where
  pub start : ℕ
  pub end : ℕ
  pub days : List ℕ
  pub tz : ZoneInfo

-- date.weekday() of an ordinal: 0 is Monday, and day 1 was one.
abbrev pub weekday : ℕ → ℕ
weekday day = (day + 6) % 7

abbrev pub contains : List ℕ → ℕ → Bool
contains days d = any (λ e. e == d) days

-- t < u
abbrev pub earlier : Local → Local → Bool
earlier t u = ltb t.day u.day || (t.day == u.day && ltb t.time u.time)

abbrev pub local : WorkingHours → ℕ → Local
local h now = h.tz.local_of now

unfoldable pub is_open_at : WorkingHours → Local → Bool
is_open_at h t = contains h.days (weekday t.day) && (leb h.start t.time && ltb t.time h.end)

unfoldable pub is_open : WorkingHours → ℕ → Bool
unfolding is_open_at
is_open h now = is_open_at h (local h now)

abbrev pub start_of_workday : WorkingHours → ℕ → ℕ
start_of_workday h now = h.tz.instant_of (record { day = (local h now).day; time = 0 })

-- datetime.combine(t.date() + timedelta(days=offset), self.start)
abbrev pub opening : WorkingHours → Local → ℕ → Local
opening h t offset = record { day = t.day + offset; time = h.start }

abbrev pub is_opening : WorkingHours → Local → ℕ → Bool
is_opening h t offset = contains h.days (weekday (t.day + offset)) && earlier t (opening h t offset)

-- `for offset in range(8)`: the rounds left and the offset reached.
unfoldable pub opening_from : WorkingHours → Local → ℕ → ℕ → Local
opening_from h t zero offset = record { day = t.day + 1; time = t.time }
opening_from h t (suc rounds) offset =
    let rest = opening_from h t rounds (suc offset) in
    if is_opening h t offset then opening h t offset else rest

unfoldable pub next_opening : WorkingHours → ℕ → Local
next_opening h now = opening_from h (local h now) 8 0
