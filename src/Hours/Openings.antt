-- ===== src/Hours/Openings.antt =====
-- `next_opening` (src/collegium/hours.py) against what an opening is.
use collegium.Prelude.{
  ℕ, zero, suc, ◌+◌, ◌-◌, ◌%◌, ◌≤◌, ◌<◌, ◌≡◌, subst, true, arith, Bool-cases, inl, inr,
}
use native.Mathlib.Decide.{dec_lt}
use native.Mathlib.Nat.{add-zero, zero-add}
use collegium.Hours.{
  Local, WorkingHours, weekday, contains, earlier, local, is_opening, opening_from, next_opening,
}

-- A moment at which the organization opens, after `t`.
pub record IsOpening (h : WorkingHours) (t o : Local) : Type 0 where
  pub workday : contains h.days (weekday o.day) ≡ true
  pub at_start : o.time ≡ h.start
  pub later : earlier t o ≡ true

regroup : (a b : ℕ) → a + suc b ≡ suc a + b
regroup a b = omega arith

-- Where one of the offsets still to be tried is an opening, the loop finds one no later.
opening_from-first :
    (h : WorkingHours) (t : Local) (rounds offset k : ℕ)
    → is_opening h t (offset + k) ≡ true
    → k < rounds
    → IsOpening h t (opening_from h t rounds offset)
      × ((opening_from h t rounds offset).day ≤ t.day + (offset + k))
unfolding opening_from
opening_from-first h t zero offset k good lt = elim lt [ ]
opening_from-first h t (suc rounds) offset zero good lt =
    let here : is_opening h t offset ≡ true = rw add-zero at good in
    rw here (ground (arith, here), omega arith)
opening_from-first h t (suc rounds) offset (suc k) good lt =
    let (found, bound) =
      opening_from-first h t rounds (suc offset) k
        (subst (λ n. is_opening h t n ≡ true) (regroup offset k) good) (omega arith) in
    elim (Bool-cases (is_opening h t offset)) [
      | inl here ↦ rw here (ground (arith, here), omega arith)
      | inr elsewhere ↦ rw elsewhere (found, omega (arith, bound))
    ]

-- The weekday of any later day comes round within the week that follows.
within_week : (day d : ℕ) → day < d → weekday (day + suc ((d - day - 1) % 7)) ≡ weekday d
within_week day d lt = omega arith

weekday_comes : (day w : ℕ) → w < 7 → weekday (day + suc ((w + 7 - day % 7) % 7)) ≡ w
weekday_comes day w lt = omega arith

-- If some weekday is a workday, the next opening is one: it falls on a workday, at the starting
-- time, strictly after now.
pub next_opening-IsOpening :
    (h : WorkingHours) (now w : ℕ)
    → w < 7
    → contains h.days w ≡ true
    → IsOpening h (local h now) (next_opening h now)
unfolding next_opening
next_opening-IsOpening h now w lt works =
    let t = local h now in
    let k = (w + 7 - t.day % 7) % 7 in
    let good : is_opening h t (0 + suc k) ≡ true =
      rw (zero-add, weekday_comes t.day w lt, works) (ground arith) in
    (opening_from-first h t 8 0 (suc k) good (omega arith)).0

-- No opening after now comes before the next one: a day on which the organization opens later than
-- now is not before the day of the next opening.
pub next_opening-first :
    (h : WorkingHours) (now d : ℕ)
    → contains h.days (weekday d) ≡ true
    → earlier (local h now) (record { day = d; time = h.start }) ≡ true
    → (next_opening h now).day ≤ d
unfolding next_opening
next_opening-first h now d works later =
    let t = local h now in
    elim (dec_lt t.day d) [
      | yes after ↦
          let k = (d - t.day - 1) % 7 in
          let good : is_opening h t (0 + suc k) ≡ true =
            rw (zero-add, within_week t.day d after, works) (ground arith) in
          omega (arith, (opening_from-first h t 8 0 (suc k) good (omega arith)).1)
      | no same ↦
          let today : t.day + 0 ≡ d = ground arith in
          let good : is_opening h t (0 + 0) ≡ true = rw (today, works) later in
          omega (arith, (opening_from-first h t 8 0 0 good (omega arith)).1, today)
    ]
