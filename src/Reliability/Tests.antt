-- ===== src/Reliability/Tests.antt =====
-- Kinds of source on small examples.
use collegium.Prelude.{◌≡◌, refl, true, false}
use collegium.Text.{codes}
use collegium.Text.Url.{hostname, urlsplit}
use collegium.Reliability.{forum, other, classify, host_of, is_blocked, worth_paying}

old_reddit : classify (codes "https://old.reddit.com/r/x") ≡ (forum, 400)
unfolding classify host_of hostname
old_reddit = refl

not_reddit : classify (codes "https://notreddit.com/r/x") ≡ (other, 1000)
unfolding classify host_of hostname
not_reddit = refl

community_forum : classify (codes "https://community.example.org/t/1") ≡ (forum, 400)
unfolding classify host_of hostname
community_forum = refl

sussex_allowed : is_blocked (codes "https://www.sussex.ac.uk/") ≡ false
unfolding is_blocked host_of hostname
sussex_allowed = refl

front_page : worth_paying (codes "https://www.example.org/") ≡ false
unfolding worth_paying classify is_blocked host_of hostname urlsplit
front_page = refl

article : worth_paying (codes "https://www.example.org/a") ≡ true
unfolding worth_paying classify is_blocked host_of hostname urlsplit
article = refl
