-- ===== src/Text/Tests.antt =====
-- Addresses taken apart.
use collegium.Prelude.{◌≡◌, refl, some, none}
use collegium.Text.{codes, strip}
use collegium.Text.Url.{urlsplit, hostname}

hostname-plain :
    hostname (codes "https://WWW.Example.org:443/a?b#c") ≡ some (codes "www.example.org")
unfolding hostname
hostname-plain = refl

hostname-user :
    hostname (codes "http://me@you@forum.example.org/") ≡ some (codes "forum.example.org")
unfolding hostname
hostname-user = refl

hostname-none : hostname (codes "not an address") ≡ none
unfolding hostname
hostname-none = refl

hostname-bracketed : hostname (codes "http://[::1]:80/") ≡ some (codes "::1")
unfolding hostname
hostname-bracketed = refl

path-query : (urlsplit (codes "https://a.b/x/y?q=1#f")).path ≡ codes "/x/y"
unfolding urlsplit
path-query = refl

strip-both : strip (codes "  a b ") ≡ codes "a b"
unfolding strip
strip-both = refl
