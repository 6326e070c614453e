-- ===== src/Memory/Reading.antt =====
-- The reads of src/collegium/memory.py that the modelled components make. Where the SQL orders by
-- the time of creation, the order is the table's own.
use collegium.Prelude.{
  ℕ, Bool, not, ◌&&◌, Option, none, some, List, [], ◌∷◌, ◌==◌, if◌then◌else◌, filter, find, map,
}
use collegium.Text.{Text, distinct}
use collegium.Memory.Tables.{
  Domain, Hypothesis, Critique, Source, Evidence, EvidenceLink, Relationship, Memory, is_open,
  is_support, is_active, is_refines,
}

-- `SELECT * FROM domains WHERE status = 'active' ORDER BY slug`; the table stands in that order.
abbrev pub active_domains : Memory → List Domain
active_domains m = filter (λ d. is_active d.status) m.domains

abbrev pub domain : ℕ → Memory → Option Domain
domain domain_id m = find (λ d. d.id == domain_id) m.domains

-- The second parts of the pairs with this first part.
abbrev pub seconds_of : ℕ → List (ℕ × ℕ) → List ℕ
seconds_of node_id [] = []
seconds_of node_id ((n, d) ∷ rows) =
    let rest = seconds_of node_id rows in if n == node_id then d ∷ rest else rest

unfoldable pub node_domain_ids : ℕ → Memory → List ℕ
node_domain_ids node_id m = seconds_of node_id m.node_domains

unfoldable pub hypothesis : ℕ → Memory → Option Hypothesis
hypothesis hypothesis_id m = find (λ h. h.id == hypothesis_id) m.hypotheses

-- The view current_confidence: the latest assessment of the target.
unfoldable pub current_confidence : ℕ → Memory → Option ℕ
current_confidence target_id m = elim (find (λ a. a.target_id == target_id) m.assessments) [
  | none ↦ none
  | some a ↦ some a.confidence
]

unfoldable pub critiques_of : ℕ → Memory → List Critique
critiques_of target_id m = filter (λ c. c.target_id == target_id) m.critiques

unfoldable pub open_critiques : ℕ → Memory → List Critique
open_critiques target_id m =
    filter (λ c. (c.target_id == target_id) && is_open c.status) m.critiques

abbrev pub source_of : Evidence → Memory → Option Source
source_of e m = elim e.source_id [ none ↦ none | some s ↦ find (λ r. r.id == s) m.sources ]

-- The address behind a link, by the joins with evidence and sources.
unfoldable pub uri_of_link : Memory → EvidenceLink → Option Text
uri_of_link m l = elim (find (λ e. e.id == l.evidence_id) m.evidence) [
  | none ↦ none
  | some e ↦ elim (source_of e m) [ none ↦ none | some s ↦ some s.uri ]
]

-- `[r["uri"] for r in rows if r["uri"]]`
abbrev pub uris_of : Memory → List EvidenceLink → List Text
uris_of m [] = []
uris_of m (l ∷ links) =
    let rest = uris_of m links in
    elim (uri_of_link m l) [ none ↦ rest | some [] ↦ rest | some (c ∷ u) ↦ (c ∷ u) ∷ rest ]

unfoldable pub is_supporting : ℕ → EvidenceLink → Bool
is_supporting hypothesis_id l =
    (l.target_id == hypothesis_id) && (is_support l.stance && not l.retracted)

unfoldable pub supporting_source_uris : ℕ → Memory → List Text
supporting_source_uris hypothesis_id m =
    distinct (uris_of m (filter (is_supporting hypothesis_id) m.evidence_links))

unfoldable pub refined_hypotheses : ℕ → Memory → List ℕ
refined_hypotheses hypothesis_id m =
    map (λ (r : Relationship). r.object_id)
      (filter (λ r. (r.subject_id == hypothesis_id) && (is_refines r.predicate && not r.retracted))
        m.relationships)

-- The addresses that `hypothesis_evidence` gives, for the links that are not retracted.
unfoldable pub evidence_uris : ℕ → Memory → List Text
evidence_uris hypothesis_id m =
    uris_of m (filter (λ l. (l.target_id == hypothesis_id) && not l.retracted) m.evidence_links)
