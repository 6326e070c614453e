-- ===== src/Roles/Citing.antt =====
-- The cited document is asked first (`ground_evidence` in src/collegium/roles/base.py).
use collegium.Prelude.{
  append_one, ℕ, zero, suc, ◌+◌, ◌≡◌, Bool, true, false, refl, sym, ap, ◌∙◌, none, some, List, [],
  ◌∷◌, ◌++◌, filter, map, not, ◌==◌, arith,
}
use mathlib.Core.List.{append-nil}
use collegium.Text.{Text}
use collegium.Acquisition.{Document}
use collegium.Grounding.{quoted, locate_excerpt, get}
use collegium.Roles.{
  EvidenceItem, GroundedEvidence, Grounding, numbered, cited_first, Found, found, missing, broken,
  first_found, with_found, ground_more, ground_evidence, no_grounding,
}

-- The document with the number `k`, in a list that counts from `n`.
chosen :
    (n k i : ℕ) (documents : List Document) (d : Document)
    → k ≡ i + n
    → get documents i ≡ some d
    → (rest : List (ℕ × Document)) × (filter (λ x. x.0 == k) (numbered n documents) ≡ (k, d) ∷ rest)
chosen n k i [] d here e = absurd (cc e)
chosen n k zero (x ∷ documents) d here e =
    let same : n ≡ k = omega (arith, here) in
    let this : x ≡ d = cc e in
    let first : (n == k) ≡ true = ground (arith, same) in
    rw first (filter (λ y. y.0 == k) (numbered (suc n) documents), rw (same, this) refl)
chosen n k (suc i) (x ∷ documents) d here e =
    let later = chosen (suc n) k i documents d (omega (arith, here)) e in
    let other : (n == k) ≡ false = ground (arith, here) in rw other later

-- An excerpt that stands in the document it cites is attributed to that document, whatever the
-- others say.
pub first_found-cited :
    (excerpt t : Text) (documents : List Document) (i : ℕ) (d : Document)
    → get documents i ≡ some d
    → locate_excerpt excerpt d.content ≡ quoted t
    → first_found excerpt (cited_first (suc i) documents) ≡ found d t
unfolding cited_first
first_found-cited excerpt t documents i d e q =
    let (rest, first) = chosen 1 (suc i) i documents d (omega arith) e in rw (first, q) refl

abbrev pub is_found : Found → Bool
is_found (found d excerpt) = true
is_found missing = false
is_found broken = false

-- The item's excerpt stands in one of the documents.
abbrev pub is_kept : List Document → EvidenceItem → Bool
is_kept documents item = is_found (first_found item.excerpt (cited_first item.document documents))

abbrev kept_items : Grounding → List EvidenceItem
kept_items g = map (λ (e : GroundedEvidence). e.item) g.grounded

-- What the loop adds to `before`: the items that are kept, and the excerpts of the others.
pub record IsSplit (documents : List Document) (items : List EvidenceItem) (before g : Grounding)
    : Type 0 where
  pub kept : kept_items g ≡ kept_items before ++ filter (is_kept documents) items
  pub dropped :
      g.dropped
      ≡ before.dropped
        ++ map
            (λ (item : EvidenceItem). item.excerpt)
            (filter (λ item. not (is_kept documents item)) items)

map-append_one :
    {A B : Type 0} (f : A → B) (xs : List A) (a : A) → map f (xs ++ a ∷ []) ≡ map f xs ++ f a ∷ []
map-append_one f [] a = refl
map-append_one f (x ∷ xs) a = ap (◌∷◌ (f x)) (map-append_one f xs a)

ground_more-none :
    (items : List EvidenceItem) (documents : List Document)
    → ground_more items documents none ≡ none
ground_more-none [] documents = refl
ground_more-none (item ∷ items) documents = ground_more-none items documents

ground_more-IsSplit :
    (items : List EvidenceItem) (documents : List Document) (before g : Grounding)
    → ground_more items documents (some before) ≡ some g
    → IsSplit documents items before g
ground_more-IsSplit [] documents before g e =
    let same : before ≡ g = cc e in
    record {
      kept = ap kept_items (sym same) ∙ sym (append-nil (kept_items before));
      dropped = ap (λ (x : Grounding). x.dropped) (sym same) ∙ sym (append-nil before.dropped);
    }
ground_more-IsSplit (item ∷ items) documents before g e =
    step (λ after. ground_more-IsSplit items documents after g)
      (first_found item.excerpt (cited_first item.document documents)) refl e
  where
    step :
        ((after : Grounding)
          → ground_more items documents (some after) ≡ some g
          → IsSplit documents items after g)
        → (w : Found) → first_found item.excerpt (cited_first item.document documents) ≡ w
        → ground_more items documents (with_found item w (some before)) ≡ some g
        → IsSplit documents (item ∷ items) before g
    step later (found d excerpt) w e =
        let one : GroundedEvidence = record { item = item; document = d; excerpt = excerpt } in
        let rest = later (record before { grounded = before.grounded ++ one ∷ [] }) e in
        record {
          kept =
              rest.kept
              ∙ rw (map-append_one (λ (x : GroundedEvidence). x.item) before.grounded one)
                  (rw w (append_one (kept_items before) item (filter (is_kept documents) items)));
          dropped = rest.dropped ∙ rw w refl;
        }
    step later missing w e =
        let rest = later (record before { dropped = before.dropped ++ item.excerpt ∷ [] }) e in
        record {
          kept = rest.kept ∙ rw w refl;
          dropped = rest.dropped ∙ rw w (append_one before.dropped item.excerpt _);
        }
    step later broken w e = absurd (cc (ground_more-none items documents, e))

-- The items that are kept are those whose excerpt was found in a document, each once and in their
-- order, and what is recorded as dropped is the excerpt of each of the others, in their order.
pub ground_evidence-IsSplit :
    (items : List EvidenceItem) (documents : List Document) (g : Grounding)
    → ground_evidence items documents ≡ some g
    → IsSplit documents items no_grounding g
unfolding ground_evidence
ground_evidence-IsSplit items documents g e = ground_more-IsSplit items documents no_grounding g e
