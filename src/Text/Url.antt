-- ===== src/Text/Url.antt =====
-- urllib.parse.urlsplit, as far as the program uses it: the scheme, the host name and the rest of an
-- address. The ValueErrors for malformed brackets are not modelled.
use collegium.Prelude.{
  ℕ, Bool, ◌&&◌, ◌||◌, Option, none, some, [], ◌∷◌, ◌++◌, leb, ◌==◌, if◌then◌else◌, all, or_default,
}
use collegium.Text.{Text, starts_with, drop, lower, span}

pub record SplitUrl : Type 0 where
  pub scheme : Text
  pub netloc : Text
  pub path : Text
  pub query : Text

is_alpha : ℕ → Bool
is_alpha c = (leb 65 c && leb c 90) || (leb 97 c && leb c 122)

is_digit : ℕ → Bool
is_digit c = leb 48 c && leb c 57

-- letters, digits and "+-."
is_scheme_char : ℕ → Bool
unfolding is_alpha is_digit
is_scheme_char c = is_alpha c || is_digit c || c == 43 || c == 45 || c == 46

-- The scheme, if there is one, and what follows its colon.
split_scheme : Text → Text × Text
unfolding is_scheme_char
split_scheme [] = ([], [])
split_scheme (c ∷ s) =
    let (front, back) = span (λ d. d == b':') (c ∷ s) in
    elim back [
      | [] ↦ ([], c ∷ s)
      | colon ∷ rest ↦
          if is_alpha c && all is_scheme_char front then (lower front, rest) else ([], c ∷ s)
    ]

is_delimiter : ℕ → Bool
is_delimiter c = c == b'/' || c == b'?' || c == b'#'

split_netloc : Text → Text × Text
unfolding is_delimiter
split_netloc s = if starts_with (b'/' ∷ b'/' ∷ []) s then span is_delimiter (drop 2 s) else ([], s)

is_ignored : ℕ → Bool
is_ignored c = c == 9 || c == 10 || c == 13

-- Leading control characters and spaces go, and tabs and line breaks anywhere.
clean : Text → Text
unfolding is_ignored
clean [] = []
clean (c ∷ s) = if is_ignored c then clean s else c ∷ clean s

lstrip_controls : Text → Text
lstrip_controls [] = []
lstrip_controls (c ∷ s) = let rest = lstrip_controls s in if leb c 32 then rest else c ∷ s

unfoldable pub urlsplit : Text → SplitUrl
unfolding split_scheme split_netloc clean lstrip_controls
urlsplit url =
    let (scheme, rest) = split_scheme (clean (lstrip_controls url)) in
    let (netloc, tail) = split_netloc rest in
    let (unfragmented, _) = span (λ c. c == b'#') tail in
    let (path, query) = span (λ c. c == b'?') unfragmented in
    record { scheme = scheme; netloc = netloc; path = path; query = drop 1 query }

-- What follows the last "@", if there is one.
last_at : Text → Option Text
last_at [] = none
last_at (c ∷ s) =
    let rest = last_at s in
    elim rest [ some t ↦ some t | none ↦ (if c == b'@' then some s else none) ]

host_text : Text → Text
unfolding last_at
host_text netloc =
    let info = or_default (last_at netloc) netloc in
    let (_, bracketed) = span (λ c. c == b'[') info in
    elim bracketed [
      | [] ↦ (span (λ c. c == b':') info).0
      | _ ∷ inside ↦ (span (λ c. c == b']') inside).0
    ]

-- SplitResult.hostname: lower case, without the port; None if empty.
unfoldable pub hostname : Text → Option Text
unfolding urlsplit host_text
hostname url =
    let host = host_text (urlsplit url).netloc in
    elim host [
      | [] ↦ none
      | c ∷ s ↦ (let (name, zone) = span (λ d. d == b'%') (c ∷ s) in some (lower name ++ zone))
    ]
