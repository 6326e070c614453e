-- ===== src/Grounding.antt =====
-- Finding a quote in a document (src/collegium/grounding.py: `_normalize`, `locate_excerpt` and
-- `_original`). A text is the list of its code
-- points.
pub mod Matching
pub mod Passages
pub mod Quotes
pub mod Blocks
pub mod Mentions
mod Tests
unfoldable pub use Matching.*
use collegium.Unicode.Alnum.{is_alnum_past_ascii}
use collegium.Prelude.{
  ℕ, zero, suc, ◌+◌, ◌-◌, ◌*◌, ◌/◌, Bool, true, false, not, ◌&&◌, ◌||◌, Option, none, some, List,
  [], ◌∷◌, ◌++◌, ltb, leb, ◌==◌, if◌then◌else◌, length, take, min, any,
}
use collegium.Text.{Text, drop, is_space, lower_chars, strip}

abbrev pub min_excerpt_chars : ℕ
min_excerpt_chars = 20

abbrev pub max_excerpt_chars : ℕ
max_excerpt_chars = 600

-- `_TRANSLATE`: curly quotes, dashes and the no-break space.
abbrev pub translate : ℕ → ℕ
translate c =
    if c == 8216 || c == 8217
    then 39
    else if c == 8220 || c == 8221
    then 34
    else if c == 8211 || c == 8212
    then 45
    else if c == 160
    then 32
    else c

-- `_IGNORED`: " ' * _ ` # > - and the bullet.
abbrev pub is_ignored : ℕ → Bool
is_ignored c = any (λ d. d == c) (34 ∷ 39 ∷ 42 ∷ 95 ∷ 96 ∷ 35 ∷ 62 ∷ 45 ∷ 8226 ∷ [])

pub record Normalized : Type 0 where
  pub text : Text
  pub index : List ℕ

abbrev pub with_char : Text → ℕ → Normalized → Normalized
with_char chars i n = record { text = chars ++ n.text; index = i ∷ n.index }

-- The loop of `_normalize`, at place `i`: whether a character was kept, and whether a space is due.
abbrev pub normalize_from : ℕ → Bool → Bool → Text → Normalized
normalize_from i started pending [] = record { text = []; index = [] }
normalize_from i started pending (c ∷ s) =
    let skipped = normalize_from (suc i) started pending s in
    let spaced = normalize_from (suc i) started started s in
    let kept = with_char (lower_chars (translate c)) i (normalize_from (suc i) true false s) in
    if is_ignored (translate c)
    then skipped
    else if is_space (translate c)
    then spaced
    else if pending
    then with_char (32 ∷ []) (i - 1) kept
    else kept

unfoldable pub normalize : Text → Normalized
normalize text = normalize_from 0 false false text

-- ch.isalnum()
abbrev pub is_alnum : ℕ → Bool
is_alnum c =
    if ltb c 128
    then (leb 48 c && leb c 57) || (leb 65 c && leb c 90) || (leb 97 c && leb c 122)
    else is_alnum_past_ascii c

-- xs[i], if it is there.
abbrev pub get {ℓ} : {A : Type ℓ} → List A → ℕ → Option A
get [] i = none
get (x ∷ xs) zero = some x
get (x ∷ xs) (suc i) = get xs i

abbrev pub is_alnum_at : Text → ℕ → Bool
is_alnum_at text i = elim (get text i) [ none ↦ false | some c ↦ is_alnum c ]

-- `while a > 0 and document[a - 1].isalnum(): a -= 1`
abbrev pub widen_left : Text → ℕ → ℕ
widen_left document zero = zero
widen_left document (suc a) =
    let further = widen_left document a in if is_alnum_at document a then further else suc a

-- `while b < len(document) and document[b].isalnum(): b += 1`, with the places left.
abbrev pub widen_right : Text → ℕ → ℕ → ℕ
widen_right document zero b = b
widen_right document (suc rounds) b =
    let further = widen_right document rounds (suc b) in
    if is_alnum_at document b then further else b

-- text[a:b]
abbrev pub slice : Text → ℕ → ℕ → Text
slice text a b = take (b - a) (drop a text)

-- What is located: the source's own words, nothing, or an index that is out of range.
pub data Located : Type 0 where
  quoted : Text → Located
  unquoted index_error : Located

abbrev pub between : Text → Option ℕ → Option ℕ → Located
between document none last = index_error
between document (some first) none = index_error
between document (some first) (some last) = quoted (
    strip (
      slice document (widen_left document first)
        (widen_right document (length document - suc last) (suc last))))

-- `_original`
unfoldable pub original : Text → List ℕ → ℕ → ℕ → Located
original document index start end = between document (get index start) (get index (end - 1))

abbrev pub sum_sizes : List Block → ℕ
sum_sizes [] = 0
sum_sizes (x ∷ xs) = x.size + sum_sizes xs

abbrev pub end_of_last : Block → List Block → ℕ
end_of_last x [] = x.a + x.size
end_of_last x (y ∷ ys) = end_of_last y ys

-- The passage behind the blocks, if they share 85 % of the excerpt's characters.
abbrev pub passage : Text → List ℕ → ℕ → ℕ → List Block → Located
passage document index size start [] = unquoted
passage document index size start (x ∷ xs) =
    if ltb (100 * sum_sizes (x ∷ xs)) (85 * size)
    then unquoted
    else original document index (start + x.a) (start + end_of_last x xs)

abbrev pub window_start : Text → Block → ℕ
window_start ex anchor = anchor.a - anchor.b - length ex / 10

abbrev pub window_end : Text → Text → Block → ℕ
window_end text ex anchor = min (length text) (anchor.a + (length ex - anchor.b) + length ex / 10)

abbrev pub near_blocks : Text → Text → Block → List Block
near_blocks text ex anchor =
    matching_blocks (suc (length ex)) 0 0
      (slice text (window_start ex anchor) (window_end text ex anchor)) ex

abbrev pub is_loose : Text → Block → Bool
is_loose ex anchor = ltb anchor.size (min min_excerpt_chars (length ex / 3))

-- The passage around the longest match.
abbrev pub locate_around : Text → Normalized → Text → Block → Located
locate_around document doc ex anchor =
    if is_loose ex anchor
    then unquoted
    else passage document doc.index (length ex) (window_start ex anchor)
        (near_blocks doc.text ex anchor)

abbrev pub locate_near : Text → Normalized → Text → Located
locate_near document doc ex = locate_around document doc ex (find_longest_match doc.text ex)

abbrev pub is_empty_text : Text → Bool
is_empty_text [] = true
is_empty_text (c ∷ s) = false

abbrev pub is_out_of_bounds : Text → Bool
is_out_of_bounds ex = not (leb min_excerpt_chars (length ex) && leb (length ex) max_excerpt_chars)

abbrev pub locate_in : Text → Normalized → Text → Option ℕ → Located
locate_in document doc ex (some pos) = original document doc.index pos (pos + length ex)
locate_in document doc ex none = locate_near document doc ex

unfoldable pub locate_excerpt : Text → Text → Located
locate_excerpt excerpt document =
    let ex = (normalize excerpt).text in
    let doc = normalize document in
    if not (leb min_excerpt_chars (length ex) && leb (length ex) max_excerpt_chars)
      || is_empty_text doc.text
    then unquoted
    else locate_in document doc ex (find_text ex doc.text)
