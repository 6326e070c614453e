-- ===== src/Text.antt =====
-- Text that the program takes apart, as the list of its code points, with the methods of Python's
-- str that the program uses.
pub mod Url
mod Tests
use Prim.Native.Char.{code}
use Prim.Native.String.{String}
use text.Mathlib.TextEquality.{eq_iff}
use collegium.Unicode.Lower.{lower_past_ascii, is_cased, is_case_ignorable}
use collegium.Prelude.{
  ℕ, zero, suc, ◌+◌, ◌-◌, ◌≡◌, refl, ◌↔◌, Bool, true, false, not, ◌&&◌, ◌||◌, Option, none, some,
  List, [], ◌∷◌, ◌++◌, map, ltb, leb, ◌==◌, if◌then◌else◌, any, length, arith,
}

abbrev pub Text : Type 0
Text = List ℕ

abbrev pub codes : String → Text
codes String.[] = []
codes (String.◌∷◌ c s) = code c ∷ codes s

abbrev pub text_eq : Text → Text → Bool
text_eq [] [] = true
text_eq (c ∷ s) (d ∷ t) = c == d && text_eq s t
text_eq _ _ = false

pub text_eq_iff : (s t : Text) → (text_eq s t ≡ true) ↔ (s ≡ t)
text_eq_iff [] [] = ground arith
text_eq_iff (c ∷ s) (d ∷ t) = ground (arith, text_eq_iff s t)
text_eq_iff [] (d ∷ t) = ground arith
text_eq_iff (c ∷ s) [] = ground arith

-- `t in texts`
abbrev pub text_in : List Text → Text → Bool
text_in texts t = any (text_eq t) texts

-- `set(texts)` and SELECT DISTINCT: each text once.
unfoldable pub distinct : List Text → List Text
distinct [] = []
distinct (t ∷ texts) = let rest = distinct texts in if text_in texts t then rest else t ∷ rest

-- s.startswith(p)
abbrev pub starts_with : Text → Text → Bool
starts_with [] s = true
starts_with (c ∷ p) [] = false
starts_with (c ∷ p) (d ∷ s) = c == d && starts_with p s

-- s.endswith(p)
abbrev pub ends_with : Text → Text → Bool
ends_with p [] = text_eq p []
ends_with p (d ∷ s) = text_eq p (d ∷ s) || ends_with p s

abbrev pub drop : ℕ → Text → Text
drop zero s = s
drop (suc n) [] = []
drop (suc n) (c ∷ s) = drop n s

-- s.removeprefix(p)
abbrev pub remove_prefix : Text → Text → Text
remove_prefix p s = if starts_with p s then drop (length p) s else s

abbrev pub lower_code : ℕ → ℕ
lower_code c =
    if ltb c 128 then (if leb 65 c && leb c 90 then c + 32 else c) else lower_past_ascii c

-- ch.lower(), which is two code points for U+0130 alone.
abbrev pub lower_chars : ℕ → Text
lower_chars c = if c == 304 then 105 ∷ 775 ∷ [] else lower_code c ∷ []

-- The first code that is not ignored for case has a case.
abbrev pub is_cased_first : Text → Bool
is_cased_first [] = false
is_cased_first (c ∷ s) =
    let rest = is_cased_first s in if is_case_ignorable c then rest else is_cased c

-- A capital sigma ends a word; `before` is the text before it, from its end.
abbrev pub is_final : Text → Text → Bool
is_final before after = is_cased_first before && not (is_cased_first after)

abbrev pub lower_after : Text → Text → Text
lower_after before [] = []
lower_after before (c ∷ s) =
    let rest = lower_after (c ∷ before) s in
    if c == 931 && is_final before s then 962 ∷ rest else lower_chars c ++ rest

-- s.lower()
abbrev pub lower : Text → Text
lower s = lower_after [] s

-- str.isspace
abbrev pub is_space : ℕ → Bool
is_space c =
    (leb 9 c && leb c 13)
    || (leb 28 c && leb c 32)
    || c == 133
    || c == 160
    || c == 5760
    || (leb 8192 c && leb c 8202)
    || c == 8232
    || c == 8233
    || c == 8239
    || c == 8287
    || c == 12288

abbrev pub strip_left : Text → Text
strip_left [] = []
strip_left (c ∷ s) = let rest = strip_left s in if is_space c then rest else c ∷ s

-- No character of it would survive `strip`.
abbrev pub is_blank : Text → Bool
is_blank [] = true
is_blank (c ∷ s) = is_space c && is_blank s

abbrev pub strip_right : Text → Text
strip_right [] = []
strip_right (c ∷ s) = let rest = strip_right s in if is_blank (c ∷ s) then [] else c ∷ rest

-- s.strip()
unfoldable pub strip : Text → Text
strip s = strip_right (strip_left s)

-- Up to the first character that `stop` accepts, and from it on.
abbrev pub span : (ℕ → Bool) → Text → Text × Text
span stop [] = ([], [])
span stop (c ∷ s) =
    let (front, back) = span stop s in if stop c then ([], c ∷ s) else (c ∷ front, back)

-- `sep.join(texts)`
abbrev pub join : Text → List Text → Text
join sep [] = []
join sep (t ∷ []) = t
join sep (t ∷ u ∷ texts) = t ++ (sep ++ join sep (u ∷ texts))

-- s.replace("\r\n", "\n")
abbrev pub unix_lines : Text → Text
unix_lines [] = []
unix_lines (c ∷ []) = c ∷ []
unix_lines (c ∷ d ∷ s) =
    let rest = unix_lines (d ∷ s) in
    let skipped = unix_lines s in if c == 13 && d == 10 then 10 ∷ skipped else c ∷ rest
