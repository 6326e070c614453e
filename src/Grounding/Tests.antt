-- ===== src/Grounding/Tests.antt =====
-- The quotes of Grounding on concrete texts.
use collegium.Prelude.{◌≡◌, refl, [], ◌∷◌, All, arith}
use collegium.Text.{Text, strip}
use collegium.Grounding.{
  quoted, index_error, normalize, locate_excerpt, original, matching_blocks, find_longest_match,
}
use collegium.Grounding.Passages.{IsStretch, StandsIn, locate_excerpt-StandsIn}
use collegium.Grounding.Quotes.{IsPlain, locate_excerpt-quoted}

-- "Council opens one school."
abbrev page : Text
page =
    67 ∷ 111 ∷ 117 ∷ 110 ∷ 99 ∷ 105 ∷ 108 ∷ 32 ∷ 111 ∷ 112 ∷ 101 ∷ 110 ∷ 115 ∷ 32 ∷ 111 ∷ 110 ∷ 101
    ∷ 32 ∷ 115 ∷ 99 ∷ 104 ∷ 111 ∷ 111 ∷ 108 ∷ 46 ∷ []

-- "*council  opens one school*"
abbrev excerpt : Text
excerpt =
    42 ∷ 99 ∷ 111 ∷ 117 ∷ 110 ∷ 99 ∷ 105 ∷ 108 ∷ 32 ∷ 32 ∷ 111 ∷ 112 ∷ 101 ∷ 110 ∷ 115 ∷ 32 ∷ 111
    ∷ 110 ∷ 101 ∷ 32 ∷ 115 ∷ 99 ∷ 104 ∷ 111 ∷ 111 ∷ 108 ∷ 42 ∷ []

-- "Council opens one school"
abbrev passage : Text
passage =
    67 ∷ 111 ∷ 117 ∷ 110 ∷ 99 ∷ 105 ∷ 108 ∷ 32 ∷ 111 ∷ 112 ∷ 101 ∷ 110 ∷ 115 ∷ 32 ∷ 111 ∷ 110 ∷ 101
    ∷ 32 ∷ 115 ∷ 99 ∷ 104 ∷ 111 ∷ 111 ∷ 108 ∷ []

quotes_passage : locate_excerpt excerpt page ≡ quoted passage
unfolding locate_excerpt normalize original strip
quotes_passage = refl

locate_excerpt-StandsIn_example : StandsIn page (locate_excerpt excerpt page)
locate_excerpt-StandsIn_example = locate_excerpt-StandsIn excerpt page

page-IsPlain : All IsPlain page
page-IsPlain = ground arith

excerpt-IsStretch : IsStretch (normalize excerpt).text (normalize page).text
unfolding normalize
excerpt-IsStretch = record { before = []; after = 46 ∷ []; whole = refl }

locate_excerpt-quoted_example : (t : Text) × (locate_excerpt excerpt page ≡ quoted t)
unfolding normalize
locate_excerpt-quoted_example =
    locate_excerpt-quoted excerpt page page-IsPlain refl excerpt-IsStretch

-- "İ", seven times and three, lowered to twice as many code points: the index has too few places.
abbrev dotted : Text
dotted = 304 ∷ 304 ∷ 304 ∷ 304 ∷ 304 ∷ 304 ∷ 304 ∷ 304 ∷ 304 ∷ 304 ∷ []

raises_index_error : locate_excerpt dotted dotted ≡ index_error
unfolding locate_excerpt normalize original strip
raises_index_error = refl

-- "abxcd" and "abcd".
abbrev ragged : Text
ragged = 97 ∷ 98 ∷ 120 ∷ 99 ∷ 100 ∷ []

abbrev smooth : Text
smooth = 97 ∷ 98 ∷ 99 ∷ 100 ∷ []

two_blocks :
    matching_blocks 5 0 0 ragged smooth
    ≡ record { a = 0; b = 0; size = 2 } ∷ record { a = 3; b = 2; size = 2 } ∷ []
unfolding matching_blocks find_longest_match
two_blocks = refl
