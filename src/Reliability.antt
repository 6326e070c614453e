-- ===== src/Reliability.antt =====
-- What kind of source an address belongs to, and what that is worth (src/collegium/reliability.py).
-- Ceilings are in thousandths.
mod Tests
use collegium.Prelude.{
  ℕ, Bool, true, false, not, ◌&&◌, ◌||◌, List, [], ◌∷◌, ◌++◌, ◌==◌, if◌then◌else◌, any, length,
  or_default,
}
use collegium.Text.{Text, codes, text_eq, starts_with, ends_with, remove_prefix, lower, drop}
use collegium.Text.Url.{urlsplit, hostname}

pub data SourceKind : Type 0 where
  agent_forum social forum press_release blog other : SourceKind

-- `_BY_HOST`: hosts, kind and ceiling.
abbrev pub by_host : List (List Text × SourceKind × ℕ)
by_host =
    (codes "moltbook.com" ∷ [], agent_forum, 300)
    ∷ (
      codes "youtube.com"
          ∷ codes "youtu.be"
          ∷ codes "x.com"
          ∷ codes "twitter.com"
          ∷ codes "facebook.com"
          ∷ codes "tiktok.com"
          ∷ codes "instagram.com"
          ∷ codes "threads.net"
          ∷ codes "bsky.app"
          ∷ codes "linkedin.com"
          ∷ [],
      social,
      300,
    )
    ∷ (
      codes "reddit.com"
          ∷ codes "news.ycombinator.com"
          ∷ codes "stackoverflow.com"
          ∷ codes "stackexchange.com"
          ∷ codes "quora.com"
          ∷ codes "discord.com"
          ∷ codes "discourse.org"
          ∷ [],
      forum,
      400,
    )
    ∷ (
      codes "prnewswire.com"
          ∷ codes "businesswire.com"
          ∷ codes "globenewswire.com"
          ∷ codes "accesswire.com"
          ∷ codes "einpresswire.com"
          ∷ codes "prweb.com"
          ∷ [],
      press_release,
      500,
    )
    ∷ (
      codes "medium.com"
          ∷ codes "substack.com"
          ∷ codes "dev.to"
          ∷ codes "hashnode.dev"
          ∷ codes "wordpress.com"
          ∷ codes "blogspot.com"
          ∷ codes "tumblr.com"
          ∷ [],
      blog,
      500,
    )
    ∷ []

-- `_FORUM_PREFIXES`
abbrev pub forum_prefixes : List Text
forum_prefixes =
    codes "community."
    ∷ codes "forum."
    ∷ codes "forums."
    ∷ codes "discuss."
    ∷ codes "discourse."
    ∷ []

-- `_host`
unfoldable pub host_of : Text → Text
host_of uri = remove_prefix (codes "www.") (lower (or_default (hostname uri) []))

-- host == h or host.endswith("." + h)
abbrev pub is_under : Text → Text → Bool
is_under host h = text_eq host h || ends_with (codes "." ++ h) host

-- The loop over `_BY_HOST`.
abbrev pub classify_by : List (List Text × SourceKind × ℕ) → Text → SourceKind × ℕ
classify_by [] host = (other, 1000)
classify_by ((hosts, kind, ceiling) ∷ table) host =
    let later = classify_by table host in
    if any (is_under host) hosts then (kind, ceiling) else later

abbrev pub classify_host : Text → SourceKind × ℕ
classify_host host =
    if any (λ p. starts_with p host) forum_prefixes then (forum, 400) else classify_by by_host host

unfoldable pub classify : Text → SourceKind × ℕ
classify uri = classify_host (host_of uri)

abbrev pub not_worth_research : SourceKind → Bool
not_worth_research social = true
not_worth_research agent_forum = true
not_worth_research _ = false

abbrev pub is_forum : SourceKind → Bool
is_forum forum = true
is_forum _ = false

abbrev pub not_worth_paying : SourceKind → Bool
not_worth_paying kind = not_worth_research kind || is_forum kind

abbrev pub ceiling_for : Text → ℕ
ceiling_for uri = (classify uri).1

-- `site`
unfoldable pub site_of : Text → Text
site_of uri = elim (host_of uri) [ [] ↦ uri | c ∷ s ↦ c ∷ s ]

-- p in s
abbrev pub has_part : Text → Text → Bool
has_part p [] = text_eq p []
has_part p (c ∷ s) = starts_with p (c ∷ s) || has_part p s

abbrev pub is_break : ℕ → Bool
is_break c = c == b'.' || c == b'-'

abbrev pub at_break : Text → Bool
at_break [] = true
at_break (c ∷ s) = is_break c

-- The word, up to a break or the end.
abbrev pub is_word : Text → Text → Bool
is_word w s = starts_with w s && at_break (drop (length w) s)

-- The word stands after a break, or at the start when `fresh`.
abbrev pub has_word : Text → Bool → Text → Bool
has_word w fresh [] = false
has_word w fresh (c ∷ s) = (fresh && is_word w (c ∷ s)) || has_word w (is_break c) s

-- `_ADULT`
abbrev pub adult_parts : List Text
adult_parts =
    codes "porn"
    ∷ codes "xnxx"
    ∷ codes "xvideo"
    ∷ codes "xhamster"
    ∷ codes "redtube"
    ∷ codes "youporn"
    ∷ codes "luxuretv"
    ∷ codes "brazzers"
    ∷ codes "onlyfans"
    ∷ []

unfoldable pub is_blocked : Text → Bool
is_blocked uri =
    let host = host_of uri in
    any (λ p. has_part p host) adult_parts
    || has_word (codes "xxx") true host
    || has_word (codes "sex") true host

-- APP_HOSTS
abbrev pub app_hosts : List Text
app_hosts =
    codes "chatgpt.com"
    ∷ codes "chat.openai.com"
    ∷ codes "claude.ai"
    ∷ codes "gemini.google.com"
    ∷ codes "copilot.microsoft.com"
    ∷ codes "perplexity.ai"
    ∷ codes "poe.com"
    ∷ codes "character.ai"
    ∷ codes "grok.com"
    ∷ codes "chat.deepseek.com"
    ∷ codes "chat.mistral.ai"
    ∷ []

abbrev pub is_app : Text → Bool
is_app uri = any (is_under (host_of uri)) app_hosts

abbrev pub is_root : Text → Bool
is_root path = text_eq path [] || text_eq path (codes "/")

abbrev pub is_front_page : Text → Bool
is_front_page uri = is_root (urlsplit uri).path && text_eq (urlsplit uri).query []

unfoldable pub worth_paying : Text → Bool
worth_paying uri =
    if not_worth_paying (classify uri).0 || is_blocked uri
    then false
    else if is_app uri
    then false
    else not (is_front_page uri)
