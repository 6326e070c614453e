-- ===== src/Grounding/Matching.antt =====
-- Python's str.find, and the matching blocks of difflib.SequenceMatcher with autojunk off, as
-- src/collegium/grounding.py uses them.
use collegium.Prelude.{
  ℕ, zero, suc, ◌+◌, Option, none, some, List, [], ◌∷◌, ◌++◌, ltb, ◌==◌, if◌then◌else◌, take,
  map_option,
}
use collegium.Text.{Text, starts_with, drop}

-- s.find(p), none for -1
abbrev pub find_text : Text → Text → Option ℕ
find_text p [] = if starts_with p [] then some 0 else none
find_text p (c ∷ s) =
    let later = find_text p s in if starts_with p (c ∷ s) then some 0 else map_option suc later

-- A block of equal characters: where it starts in either text, and its size.
pub record Block : Type 0 where
  pub a : ℕ
  pub b : ℕ
  pub size : ℕ

-- How far two texts agree from their starts.
abbrev pub common_prefix : Text → Text → ℕ
common_prefix [] t = 0
common_prefix (c ∷ s) [] = 0
common_prefix (c ∷ s) (d ∷ t) = let rest = common_prefix s t in if c == d then suc rest else 0

-- The larger block; the earlier one if they are equal.
abbrev pub longer : Block → Block → Block
longer x y = if ltb x.size y.size then y else x

-- The longest block that starts where `s` does, at `i`, over the starts in `t`, from `j` on.
abbrev pub longest_from : ℕ → ℕ → Text → Text → Block
longest_from i j s [] = record { a = i; b = j; size = 0 }
longest_from i j s (d ∷ t) =
    longer (record { a = i; b = j; size = common_prefix s (d ∷ t) }) (longest_from i (suc j) s t)

abbrev pub longest_over : ℕ → Text → Text → Block
longest_over i [] t = record { a = i; b = 0; size = 0 }
longest_over i (c ∷ s) t = longer (longest_from i 0 (c ∷ s) t) (longest_over (suc i) s t)

-- find_longest_match of two whole texts: the earliest in the first text, then in the second.
unfoldable pub find_longest_match : Text → Text → Block
find_longest_match s t = longest_over 0 s t

abbrev pub shift : ℕ → ℕ → Block → Block
shift da db x = record { a = x.a + da; b = x.b + db; size = x.size }

-- get_matching_blocks, in order, without the empty one at the end. Adjacent blocks are left apart:
-- only the sum of the sizes and the two ends are used. `da` and `db` are where the texts start.
unfoldable pub matching_blocks : ℕ → ℕ → ℕ → Text → Text → List Block
matching_blocks zero da db s t = []
matching_blocks (suc fuel) da db s t =
    let x = find_longest_match s t in
    let before = matching_blocks fuel da db (take x.a s) (take x.b t) in
    let after =
      matching_blocks fuel (da + (x.a + x.size)) (db + (x.b + x.size)) (drop (x.a + x.size) s)
        (drop (x.b + x.size) t) in
    if x.size == 0 then [] else before ++ shift da db x ∷ after
