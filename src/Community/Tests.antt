-- ===== src/Community/Tests.antt =====
-- Addresses of the forum on small examples.
use collegium.Prelude.{◌≡◌, refl, none, some, [], ◌∷◌}
use collegium.Text.{codes}
use collegium.Community.{
  thread, problems, reply_problems, needs_title, unknown_forum, reply_needs_text,
}

a_post : thread (codes "https://www.moltbook.com/post/abc-1") ≡ some (codes "abc-1", none)
unfolding thread
a_post = refl

a_comment :
    thread (codes "https://www.moltbook.com/post/abc#comment-d2")
    ≡ some (codes "abc", some (codes "d2"))
unfolding thread
a_comment = refl

no_thread : thread (codes "https://example.org/post/abc") ≡ none
unfolding thread
no_thread = refl

two_problems : problems [] (codes "text") (codes "nowhere") ≡ needs_title ∷ unknown_forum ∷ []
unfolding problems
two_problems = refl

blank_reply : reply_problems (codes "  ") ≡ reply_needs_text ∷ []
unfolding reply_problems
blank_reply = refl
