-- ===== src/Grounding/Passages.antt =====
-- What is located in a document stands there (`_original` and `locate_excerpt` in
-- src/collegium/grounding.py).
use collegium.Prelude.{
  ℕ, zero, suc, ◌+◌, ◌-◌, ◌≡◌, refl, sym, ap, ◌∙◌, Bool, true, false, Option, none, some, List, [],
  ◌∷◌, ◌++◌, take, length, Bool-cases, inl, inr, ltb, ◌*◌, ◌||◌, if◌then◌else◌,
}
use mathlib.Core.List.{append_assoc, append-nil}
use collegium.Text.{Text, drop, strip, strip_left, strip_right, is_space, is_blank}
use collegium.Grounding.{
  Block, Normalized, Located, quoted, unquoted, index_error, slice, between, original, get,
  widen_left, widen_right, passage, sum_sizes, end_of_last, locate_around, window_start,
  near_blocks, is_loose, is_out_of_bounds, locate_in, locate_excerpt, normalize, find_text,
  is_empty_text, find_longest_match,
}

-- `t` is a stretch of `s`: its characters stand there one after the other.
pub record IsStretch (t s : Text) : Type 0 where
  pub before : Text
  pub after : Text
  pub whole : s ≡ before ++ (t ++ after)

pub IsStretch-trans : (t s d : Text) → IsStretch t s → IsStretch s d → IsStretch t d
IsStretch-trans t s d p q = record {
  before = q.before ++ p.before;
  after = p.after ++ q.after;
  whole = q.whole ∙ ap (λ x. q.before ++ (x ++ q.after)) p.whole ∙ simp append_assoc;
}

suffix : (b s d : Text) → d ≡ b ++ s → IsStretch s d
suffix b s d e = record { before = b; after = []; whole = e ∙ ap (◌++◌ b) (sym (append-nil s)) }

prefix : (s a d : Text) → d ≡ s ++ a → IsStretch s d
prefix s a d e = record { before = []; after = a; whole = e }

take-drop : (n : ℕ) (s : Text) → s ≡ take n s ++ drop n s
take-drop zero s = refl
take-drop (suc n) [] = refl
take-drop (suc n) (c ∷ s) = ap (◌∷◌ c) (take-drop n s)

strip_left-IsStretch : (s : Text) → IsStretch (strip_left s) s
strip_left-IsStretch [] = suffix [] [] [] refl
strip_left-IsStretch (c ∷ s) = elim (Bool-cases (is_space c)) [
  | inl e ↦ rw e (
      IsStretch-trans (strip_left s) s (c ∷ s) (strip_left-IsStretch s)
        (suffix (c ∷ []) s (c ∷ s) refl))
  | inr e ↦ rw e (suffix [] (c ∷ s) (c ∷ s) refl)
]

strip_right-prefix : (s : Text) → (a : Text) × (s ≡ strip_right s ++ a)
strip_right-prefix [] = ([], refl)
strip_right-prefix (c ∷ s) = elim (Bool-cases (is_blank (c ∷ s))) [
  | inl e ↦ rw e (c ∷ s, refl)
  | inr e ↦ rw e (let p = strip_right-prefix s in (p.0, ap (◌∷◌ c) p.1))
]

strip-IsStretch : (s : Text) → IsStretch (strip s) s
unfolding strip
strip-IsStretch s =
    let p = strip_right-prefix (strip_left s) in
    IsStretch-trans (strip_right (strip_left s)) (strip_left s) s
      (prefix (strip_right (strip_left s)) p.0 (strip_left s) p.1) (strip_left-IsStretch s)

slice-IsStretch : (s : Text) (a b : ℕ) → IsStretch (slice s a b) s
slice-IsStretch s a b =
    IsStretch-trans (slice s a b) (drop a s) s
      (prefix (slice s a b) (drop (b - a) (drop a s)) (drop a s) (take-drop (b - a) (drop a s)))
      (suffix (take a s) (drop a s) s (take-drop a s))

-- A quote that was located stands in the document.
abbrev pub StandsIn : Text → Located → Type 0
StandsIn document (quoted t) = IsStretch t document
StandsIn document unquoted = Unit
StandsIn document index_error = Unit

between-StandsIn :
    (document : Text) (first last : Option ℕ) → StandsIn document (between document first last)
between-StandsIn document none last = tt
between-StandsIn document (some a) none = tt
between-StandsIn document (some a) (some b) =
    let first = widen_left document a in
    let last = widen_right document (length document - suc b) (suc b) in
    let s = slice document first last in
    IsStretch-trans (strip s) s document (strip-IsStretch s) (slice-IsStretch document first last)

original-StandsIn :
    (document : Text) (index : List ℕ) (start end : ℕ)
    → StandsIn document (original document index start end)
unfolding original
original-StandsIn document index start end =
    between-StandsIn document (get index start) (get index (end - 1))

StandsIn-if :
    (document : Text) (test : Bool) (x y : Located)
    → StandsIn document x
    → StandsIn document y
    → StandsIn document (if test then x else y)
StandsIn-if document true x y h k = h
StandsIn-if document false x y h k = k

passage-StandsIn :
    (document : Text) (index : List ℕ) (size start : ℕ) (blocks : List Block)
    → StandsIn document (passage document index size start blocks)
passage-StandsIn document index size start [] = tt
passage-StandsIn document index size start (x ∷ xs) =
    StandsIn-if document (ltb (100 * sum_sizes (x ∷ xs)) (85 * size)) unquoted
      (original document index (start + x.a) (start + end_of_last x xs)) tt
      (original-StandsIn document index (start + x.a) (start + end_of_last x xs))

locate_around-StandsIn :
    (document : Text) (doc : Normalized) (ex : Text) (anchor : Block)
    → StandsIn document (locate_around document doc ex anchor)
locate_around-StandsIn document doc ex anchor =
    let start = window_start ex anchor in
    let blocks = near_blocks doc.text ex anchor in
    StandsIn-if document (is_loose ex anchor) unquoted
      (passage document doc.index (length ex) start blocks) tt
      (passage-StandsIn document doc.index (length ex) start blocks)

locate_in-StandsIn :
    (document : Text) (doc : Normalized) (ex : Text) (found : Option ℕ)
    → StandsIn document (locate_in document doc ex found)
locate_in-StandsIn document doc ex (some pos) =
    original-StandsIn document doc.index pos (pos + length ex)
locate_in-StandsIn document doc ex none =
    locate_around-StandsIn document doc ex (find_longest_match doc.text ex)

-- Whatever excerpt is asked for, what is located is a stretch of the document itself, character by
-- character: the source's own words.
pub locate_excerpt-StandsIn :
    (excerpt document : Text) → StandsIn document (locate_excerpt excerpt document)
unfolding locate_excerpt
locate_excerpt-StandsIn excerpt document =
    let ex = (normalize excerpt).text in
    let doc = normalize document in
    StandsIn-if document (is_out_of_bounds ex || is_empty_text doc.text) unquoted
      (locate_in document doc ex (find_text ex doc.text)) tt
      (locate_in-StandsIn document doc ex (find_text ex doc.text))
