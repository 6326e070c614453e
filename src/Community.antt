-- ===== src/Community.antt =====
-- What a post or a reply may be (src/collegium/community.py).
mod Tests
use collegium.Prelude.{
  ℕ, suc, Bool, true, false, not, ◌&&◌, ◌||◌, Option, none, some, List, [], ◌∷◌, ◌++◌, ltb, leb,
  ◌==◌, if◌then◌else◌, length, filter, map, all, any,
}
use collegium.Text.{Text, codes, text_eq, text_in, starts_with, drop, strip, is_blank, join, span}

abbrev pub site_url : Text
site_url = codes "https://www.moltbook.com"

-- The keys of SUBMOLTS.
abbrev pub submolts : List Text
submolts =
    codes "agents"
    ∷ codes "ai-agents"
    ∷ codes "memory"
    ∷ codes "multiagent"
    ∷ codes "ai"
    ∷ codes "ai-coding"
    ∷ codes "coding"
    ∷ codes "programming"
    ∷ codes "research"
    ∷ codes "aisafety"
    ∷ codes "technology"
    ∷ codes "general"
    ∷ []

abbrev pub max_title : ℕ
max_title = 200

abbrev pub max_content : ℕ
max_content = 6000

abbrev pub max_comment : ℕ
max_comment = 3000

-- The messages, one constructor for each.
pub data Problem : Type 0 where
  needs_title title_too_long needs_text text_too_long unknown_forum : Problem
  reply_needs_text reply_too_long : Problem

unfoldable pub problems : Text → Text → Text → List Problem
problems title content submolt =
    (if is_blank title
      then needs_title ∷ []
      else if ltb max_title (length title)
      then title_too_long ∷ []
      else [])
    ++ ((if is_blank content
          then needs_text ∷ []
          else if ltb max_content (length content)
          then text_too_long ∷ []
          else [])
        ++ (if text_in submolts submolt then [] else unknown_forum ∷ []))

unfoldable pub reply_problems : Text → List Problem
reply_problems content =
    if is_blank content
    then reply_needs_text ∷ []
    else if ltb max_comment (length content)
    then reply_too_long ∷ []
    else []

unfoldable pub post_url : Text → Text
post_url post_id = site_url ++ (codes "/post/" ++ post_id)

abbrev pub comment_url : Text → Text → Text
comment_url post_id comment_id = post_url post_id ++ (codes "#comment-" ++ comment_id)

abbrev is_id_char : ℕ → Bool
is_id_char c =
    (leb 65 c && leb c 90) || (leb 97 c && leb c 122) || (leb 48 c && leb c 57) || c == b'-'

-- `[A-Za-z0-9-]+`, the whole of it; Python's `$` also allows one line feed at the very end.
abbrev pub is_id : Text → Bool
is_id [] = false
is_id (c ∷ s) = is_id_char c && all is_id_char s

abbrev chop_newline : Text → Text
chop_newline [] = []
chop_newline (c ∷ []) = if c == 10 then [] else c ∷ []
chop_newline (c ∷ d ∷ s) = c ∷ chop_newline (d ∷ s)

abbrev thread_parts : Text → Option (Text × Option Text)
thread_parts rest =
    let (post_id, anchor) = span (λ c. c == b'#') rest in
    elim anchor [
      | [] ↦ (if is_id (chop_newline post_id) then some (chop_newline post_id, none) else none)
      | hash ∷ after ↦
          (let comment_id = chop_newline (drop 8 after) in
            if is_id post_id && (starts_with (codes "comment-") after && is_id comment_id)
            then some (post_id, some comment_id)
            else none)
    ]

-- The post id and, for a comment, its id; none for any other address.
unfoldable pub thread : Text → Option (Text × Option Text)
thread url =
    let prefix = site_url ++ codes "/post/" in
    if starts_with prefix url then thread_parts (drop (length prefix) url) else none
