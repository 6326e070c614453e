-- ===== src/Jobs/Claiming.antt =====
-- `claim` (src/collegium/jobs.py): which row it takes, and when it takes none.
use collegium.Prelude.{
  ℕ, ◌≡◌, refl, Bool, true, false, ◌&&◌, Option, none, some, List, Memᴰ, arith, All, least,
  least-none, least-mem, least-first, mem-filter, All-of-filter, filter_nil, update_where, ◌==◌,
}
use collegium.Jobs.{
  Kind, JobRow, Job, Queue, is_eligible, before, candidates, claim, take_row, snapshot,
  start_attempt,
}

before_trans : (x y z : JobRow) → before y x ≡ false → before z y ≡ false → before z x ≡ false
unfolding before
before_trans x y z h k = ground arith

before_asym : (x y : JobRow) → before y x ≡ true → before x y ≡ false
unfolding before
before_asym x y h = ground arith

before_irrefl : (x : JobRow) → before x x ≡ false
unfolding before
before_irrefl x = ground arith

module _ (now : ℕ) (kinds : Option (List Kind)) (locked : ℕ → Bool) (q : Queue) where
  -- The row that a claim took: an eligible one, with none before it, and nothing else changed.
  pub record Took (job : Job) (q' : Queue) : Type 0 where
    pub row : JobRow
    pub listed : Memᴰ row q.rows
    pub eligible : is_eligible now kinds locked row ≡ true
    pub first : All (λ s. (is_eligible now kinds locked s && before s row) ≡ false) q.rows
    pub handed : job ≡ snapshot (start_attempt now row)
    pub updated :
        q' ≡ record q { rows = update_where (λ s. s.id == row.id) (start_attempt now) q.rows }

  abbrev pub Claimed : Option (Job × Queue) → Type 0
  Claimed none = All (λ s. is_eligible now kinds locked s ≡ false) q.rows
  Claimed (some (job, q')) = Took job q'

  Claimed-least :
      (m : Option JobRow)
      → least before (candidates now kinds locked q) ≡ m
      → Claimed (take_row now q m)
  unfolding candidates
  Claimed-least none e = filter_nil (is_eligible now kinds locked) q.rows (least-none before _ e)
  Claimed-least (some r) e =
      let (inside, ok) =
        mem-filter (is_eligible now kinds locked) r q.rows (least-mem before _ e) in
      record {
        row = r;
        listed = inside;
        eligible = ok;
        first =
            All-of-filter (is_eligible now kinds locked) (λ s. before s r) q.rows
              (least-first before before_trans before_asym before_irrefl _ e);
        handed = refl;
        updated = refl;
      }

-- A claim takes a due, unlocked row of the wanted kinds that none other comes before by priority
-- and then by time, counts the attempt and starts it, and changes no other row; it takes none only
-- when no row is due, unlocked and wanted.
pub claim-Claimed :
    (now : ℕ) (kinds : Option (List Kind)) (locked : ℕ → Bool) (q : Queue)
    → Claimed now kinds locked q (claim now kinds locked q)
unfolding claim
claim-Claimed now kinds locked q = Claimed-least now kinds locked q _ refl
