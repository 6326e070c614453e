-- ===== src/Roles/Quoting.antt =====
-- Evidence is quoted from a document that was retrieved (`ground_evidence` in
-- src/collegium/roles/base.py).
use collegium.Prelude.{
  ℕ, suc, ◌≡◌, ◌⊎◌, subst, refl, sym, ap, Bool, not, Option, none, some, List, [], ◌∷◌, ◌++◌, All,
  All-append, filter, map, ◌==◌, inl, inr, Memᴰ, mem-filter, mem_of_map,
}
use collegium.Text.{Text}
use collegium.Acquisition.{Document}
use collegium.Grounding.{Located, quoted, unquoted, index_error, locate_excerpt}
use collegium.Grounding.Passages.{IsStretch, StandsIn, locate_excerpt-StandsIn}
use collegium.Roles.{
  EvidenceItem, GroundedEvidence, Grounding, no_grounding, numbered, cited_first, Found, found,
  missing, broken, found_in, first_found, with_found, ground_more, ground_evidence,
}

-- The excerpt is a stretch of one of the documents, which the evidence is attributed to.
pub record IsQuoted (documents : List Document) (g : GroundedEvidence) : Type 0 where
  pub listed : Memᴰ g.document documents
  pub stands : IsStretch g.excerpt g.document.content

-- What was found is a stretch of one of the documents.
abbrev IsFoundIn : List Document → Found → Type 0
IsFoundIn documents (found d excerpt) = Memᴰ d documents × IsStretch excerpt d.content
IsFoundIn documents missing = Unit
IsFoundIn documents broken = Unit

later-IsFoundIn :
    (d : Document) (documents : List Document) (w : Found)
    → IsFoundIn documents w
    → IsFoundIn (d ∷ documents) w
later-IsFoundIn d documents (found e excerpt) h = (Memᴰ.tail h.0, h.1)
later-IsFoundIn d documents missing h = tt
later-IsFoundIn d documents broken h = tt

found_in-IsFoundIn :
    (d : Document) (documents : List Document) (l : Located) (later : Found)
    → StandsIn d.content l
    → IsFoundIn (d ∷ documents) later
    → IsFoundIn (d ∷ documents) (found_in d l later)
found_in-IsFoundIn d documents (quoted excerpt) later s h = (Memᴰ.head refl, s)
found_in-IsFoundIn d documents unquoted later s h = h
found_in-IsFoundIn d documents index_error later s h = tt

first_found-IsFoundIn :
    (excerpt : Text) (documents : List Document)
    → IsFoundIn documents (first_found excerpt documents)
first_found-IsFoundIn excerpt [] = tt
first_found-IsFoundIn excerpt (d ∷ documents) =
    found_in-IsFoundIn d documents (locate_excerpt excerpt d.content)
      (first_found excerpt documents) (locate_excerpt-StandsIn excerpt d.content)
      (later-IsFoundIn d documents (first_found excerpt documents)
        (first_found-IsFoundIn excerpt documents))

mem-numbered :
    (n : ℕ) (documents : List Document) (x : ℕ × Document)
    → Memᴰ x (numbered n documents)
    → Memᴰ x.1 documents
mem-numbered n [] x m = elim m [ ]
mem-numbered n (d ∷ documents) x (Memᴰ.head e) = Memᴰ.head (ap (λ y. y.1) e)
mem-numbered n (d ∷ documents) x (Memᴰ.tail m) = Memᴰ.tail (mem-numbered (suc n) documents x m)

mem-chosen :
    (p : ℕ × Document → Bool) (documents : List Document) (d : Document)
    → Memᴰ d (map (λ x. x.1) (filter p (numbered 1 documents)))
    → Memᴰ d documents
mem-chosen p documents d m =
    let (x, inside, e) =
      mem_of_map (λ (x : ℕ × Document). x.1) d (filter p (numbered 1 documents)) m in
    rw (sym e) (mem-numbered 1 documents x (mem-filter p x (numbered 1 documents) inside).0)

mem-append {ℓ} : {A : Type ℓ} (a : A) (xs ys : List A) → Memᴰ a (xs ++ ys) → Memᴰ a xs ⊎ Memᴰ a ys
mem-append a [] ys m = inr m
mem-append a (x ∷ xs) ys (Memᴰ.head e) = inl (Memᴰ.head e)
mem-append a (x ∷ xs) ys (Memᴰ.tail m) = elim (mem-append a xs ys m) [
  | inl h ↦ inl (Memᴰ.tail h)
  | inr h ↦ inr h
]

mem-cited_first :
    (cited : ℕ) (documents : List Document) (d : Document)
    → Memᴰ d (cited_first cited documents)
    → Memᴰ d documents
unfolding cited_first
mem-cited_first cited documents d m =
    elim (mem-append d (map (λ x. x.1) (filter (λ x. x.0 == cited) (numbered 1 documents)))
      (map (λ x. x.1) (filter (λ x. not (x.0 == cited)) (numbered 1 documents))) m) [
        | inl h ↦ mem-chosen (λ x. x.0 == cited) documents d h
        | inr h ↦ mem-chosen (λ x. not (x.0 == cited)) documents d h
      ]

-- Every excerpt that was kept is quoted.
abbrev AllQuoted : List Document → Option Grounding → Type 0
AllQuoted documents none = Unit
AllQuoted documents (some g) = All (IsQuoted documents) g.grounded

with_found-AllQuoted :
    (documents : List Document) (item : EvidenceItem) (w : Found) (o : Option Grounding)
    → IsFoundIn (cited_first item.document documents) w
    → AllQuoted documents o
    → AllQuoted documents (with_found item w o)
with_found-AllQuoted documents item w none h k = tt
with_found-AllQuoted documents item (found d excerpt) (some g) h k =
    All-append (IsQuoted documents) g.grounded _ k
      ((record { listed = mem-cited_first item.document documents d h.0; stands = h.1 }, tt))
with_found-AllQuoted documents item missing (some g) h k = k
with_found-AllQuoted documents item broken (some g) h k = tt

ground_more-AllQuoted :
    (items : List EvidenceItem) (documents : List Document) (o : Option Grounding)
    → AllQuoted documents o
    → AllQuoted documents (ground_more items documents o)
ground_more-AllQuoted [] documents o h = h
ground_more-AllQuoted (item ∷ items) documents o h =
    let w = first_found item.excerpt (cited_first item.document documents) in
    ground_more-AllQuoted items documents (with_found item w o) (
      with_found-AllQuoted documents item w o
        (first_found-IsFoundIn item.excerpt (cited_first item.document documents)) h)

pub ground_evidence-AllQuoted :
    (items : List EvidenceItem) (documents : List Document) (g : Grounding)
    → ground_evidence items documents ≡ some g
    → All (IsQuoted documents) g.grounded
unfolding ground_evidence
ground_evidence-AllQuoted items documents g e =
    subst (AllQuoted documents) e (ground_more-AllQuoted items documents (some no_grounding) tt)
