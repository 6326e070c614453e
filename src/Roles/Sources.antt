-- ===== src/Roles/Sources.antt =====
-- The source of a document is in memory once it was recorded (`record_source` in
-- src/collegium/memory.py).
use collegium.Prelude.{
  mem-append_left, ℕ, ◌≡◌, subst, refl, sym, ap, ◌∙◌, Bool, true, Option, none, some, List, [], ◌∷◌,
  ◌++◌, inl, inr, Memᴰ, Bool-cases, Option-cases,
}
use collegium.Text.{Text, text_eq, text_eq_iff}
use collegium.Acquisition.{Document}
use collegium.Memory.{
  Memory, Source, find_last, is_version, same_content, kept_content, insert_source, record_source,
}

mem-append_last {ℓ} : {A : Type ℓ} (a : A) (xs : List A) → Memᴰ a (xs ++ a ∷ [])
mem-append_last a [] = Memᴰ.head refl
mem-append_last a (x ∷ xs) = Memᴰ.tail (mem-append_last a xs)

-- A source of this document is there, under this id, and the sources from before still are.
pub record IsRecorded (d : Document) (m : Memory) (x : ℕ × Memory) : Type 0 where
  pub source : Source
  pub listed : Memᴰ source x.1.sources
  pub named : source.id ≡ x.0
  pub uri : source.uri ≡ d.url
  pub content : source.content ≡ kept_content d.content
  pub kept : (s : Source) → Memᴰ s m.sources → Memᴰ s x.1.sources
  pub same_evidence : x.1.evidence ≡ m.evidence

same_content_eq : (a b : Option Text) → same_content a b ≡ true → a ≡ b
same_content_eq none none h = refl
same_content_eq none (some t) h = absurd (cc h)
same_content_eq (some s) none h = absurd (cc h)
same_content_eq (some s) (some t) h = ap some ((text_eq_iff s t).0 h)

is_version_eq :
    (uri : Text) (content : Option Text) (s : Source)
    → is_version uri content s ≡ true
    → (s.uri ≡ uri) × (s.content ≡ content)
is_version_eq uri content s h = elim (Bool-cases (text_eq s.uri uri)) [
  | inl e ↦ ((text_eq_iff s.uri uri).0 e, same_content_eq s.content content (rw e at h))
  | inr e ↦ absurd (cc (rw e at h))
]

find_last-some {ℓ} :
    {A : Type ℓ} (p : A → Bool) (xs : List A) (a : A)
    → find_last p xs ≡ some a
    → Memᴰ a xs × (p a ≡ true)
find_last-some p [] a e = absurd (cc e)
find_last-some p (x ∷ xs) a e = elim (Option-cases (find_last p xs)) [
  | inl nothing ↦ elim (Bool-cases (p x)) [
    | inl holds ↦
        let same : x ≡ a = cc (rw (nothing, holds) at e) in
        (Memᴰ.head (sym same), subst (λ y. p y ≡ true) same holds)
    | inr fails ↦ absurd (cc (rw (nothing, fails) at e))
  ]
  | inr found ↦
      let same : found.0 ≡ a = cc (rw found.1 at e) in
      let ih = find_last-some p xs a (found.1 ∙ ap some same) in (Memᴰ.tail ih.0, ih.1)
]

insert_source-IsRecorded :
    (d : Document) (m : Memory)
    → IsRecorded d m (insert_source d.url (some d.title) (kept_content d.content) m)
insert_source-IsRecorded d m = record {
  source = _;
  listed = mem-append_last _ m.sources;
  named = refl;
  uri = refl;
  content = refl;
  kept = λ s inside. mem-append_left s m.sources _ inside;
  same_evidence = refl;
}

pub record_source-IsRecorded :
    (d : Document) (m : Memory) → IsRecorded d m (record_source d.url (some d.title) d.content m)
unfolding record_source
record_source-IsRecorded d m =
    elim (Option-cases (find_last (is_version d.url (kept_content d.content)) m.sources)) [
      | inl nothing ↦ rw nothing (insert_source-IsRecorded d m)
      | inr known ↦
          let (inside, version) = find_last-some _ m.sources known.0 known.1 in
          let (uri, content) = is_version_eq d.url (kept_content d.content) known.0 version in
          rw known.1 (record {
            source = known.0;
            listed = inside;
            named = refl;
            uri = uri;
            content = content;
            kept = λ s here. here;
            same_evidence = refl;
          })
    ]
