-- ===== src/Grounding/Mentions.antt =====
-- Whether a name stands in a text as whole words (`mentions` in src/collegium/grounding.py).
use collegium.Prelude.{ℕ, Bool, false, not, ◌&&◌, ◌||◌, [], ◌∷◌, ◌==◌, length}
use collegium.Text.{Text, starts_with, drop}
use collegium.Grounding.{normalize, is_alnum}

-- \w
abbrev pub is_word_char : ℕ → Bool
is_word_char c = is_alnum c || c == b'_'

abbrev pub starts_word : Text → Bool
starts_word [] = false
starts_word (c ∷ s) = is_word_char c

-- The needle between two ends of words; `inside` says that a word's character came before.
abbrev pub has_whole : Text → Bool → Text → Bool
has_whole needle inside [] = false
has_whole needle inside (c ∷ s) =
    (not inside && starts_with needle (c ∷ s) && not (starts_word (drop (length needle) (c ∷ s))))
    || has_whole needle (is_word_char c) s

-- `bool(needle) and re.search(...)`
abbrev pub has_needle : Text → Text → Bool
has_needle [] haystack = false
has_needle (c ∷ needle) haystack = has_whole (c ∷ needle) false haystack

unfoldable pub mentions : Text → Text → Bool
mentions text name = has_needle (normalize name).text (normalize text).text
