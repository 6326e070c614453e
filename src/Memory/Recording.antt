-- ===== src/Memory/Recording.antt =====
-- The inserts of src/collegium/memory.py that the research roles make. Each returns the new row's id
-- and the new memory. Times and the model's rationales of links are left out. A source's row keeps the
-- content in place of its SHA-256 digest, as if no two contents had the same one.
use collegium.Prelude.{
  map, ℕ, suc, ◌+◌, ◌*◌, ◌/◌, Bool, true, false, not, ◌&&◌, ◌||◌, Option, none, some, List, [], ◌∷◌,
  ◌++◌, ◌==◌, min, if◌then◌else◌, any, find, filter, take, update_where, ltb, sort, map_option,
}
use collegium.Text.{Text, text_eq, lower, is_space}
use collegium.Memory.Tables.{
  Locale, Entity, Hypothesis, proposed, Source, Evidence, Observation, ObservationStatus, Stance,
  NodeKind, EvidenceLink, Predicate, same_predicate, Relationship, Memory, is_live,
}
use collegium.Memory.Reading.{current_confidence}

abbrev pub is_tagged : ℕ → ℕ → ℕ × ℕ → Bool
is_tagged node_id domain_id tag = tag.0 == node_id && tag.1 == domain_id

-- ON CONFLICT DO NOTHING
abbrev pub tag_domain : ℕ → ℕ → Memory → Memory
tag_domain node_id domain_id m =
    let tagged = m.node_domains ++ (node_id, domain_id) ∷ [] in
    record m {
      node_domains =
          if any (is_tagged node_id domain_id) m.node_domains then m.node_domains else tagged;
    }

unfoldable pub tag_domains : ℕ → List ℕ → Memory → Memory
tag_domains node_id [] m = m
tag_domains node_id (d ∷ domain_ids) m = tag_domains node_id domain_ids (tag_domain node_id d m)

-- The digest of an empty content is NULL.
abbrev pub kept_content : Text → Option Text
kept_content [] = none
kept_content (c ∷ s) = some (c ∷ s)

-- IS NOT DISTINCT FROM
abbrev pub same_content : Option Text → Option Text → Bool
same_content none none = true
same_content (some s) (some t) = text_eq s t
same_content _ _ = false

abbrev pub is_version : Text → Option Text → Source → Bool
is_version uri content s = text_eq s.uri uri && same_content s.content content

-- ORDER BY retrieved_at DESC LIMIT 1; the table is kept oldest first.
abbrev pub find_last {ℓ} : {A : Type ℓ} → (A → Bool) → List A → Option A
find_last p [] = none
find_last p (a ∷ rest) =
    let later = find_last p rest in
    elim later [ some b ↦ some b | none ↦ (if p a then some a else none) ]

abbrev pub insert_source : Text → Option Text → Option Text → Memory → ℕ × Memory
insert_source uri title content m =
    let s : Source = record {
      id = m.next_id;
      uri = uri;
      title = title;
      content = content;
      author = none;
    } in
    (m.next_id, record m { next_id = suc m.next_id; sources = m.sources ++ s ∷ [] })

abbrev pub source_or_new : Text → Option Text → Option Text → Option Source → Memory → ℕ × Memory
source_or_new uri title content (some s) m = (s.id, m)
source_or_new uri title content none m = insert_source uri title content m

unfoldable pub record_source : Text → Option Text → Text → Memory → ℕ × Memory
record_source uri title content m =
    let kept = kept_content content in
    source_or_new uri title kept (find_last (is_version uri kept) m.sources) m

unfoldable pub add_hypothesis : Text → Option Text → Memory → ℕ × Memory
add_hypothesis statement rationale m =
    let h : Hypothesis = record {
      id = m.next_id;
      statement = statement;
      rationale = rationale;
      status = proposed;
      superseded_by = none;
    } in
    (m.next_id, record m { next_id = suc m.next_id; hypotheses = m.hypotheses ++ h ∷ [] })

-- numeric(3,2): rounded to hundredths, half of one up.
abbrev pub hundredths : ℕ → ℕ
hundredths r = 10 * ((r + 5) / 10)

-- `_unit` caps the reliability at one; it is given in thousandths.
unfoldable pub add_evidence : Text → Text → ℕ → Option ℕ → Memory → ℕ × Memory
add_evidence summary excerpt source_id reliability m =
    let e : Evidence = record {
      id = m.next_id;
      summary = summary;
      excerpt = excerpt;
      source_id = some source_id;
      reliability = map_option (λ r. hundredths (min 1000 r)) reliability;
    } in
    (m.next_id, record m { next_id = suc m.next_id; evidence = m.evidence ++ e ∷ [] })

unfoldable pub add_observation :
    Text → Option ℕ → Option Text → ObservationStatus → Memory → ℕ × Memory
add_observation statement source_id recommendation status m =
    let o : Observation = record {
      id = m.next_id;
      statement = statement;
      source_id = source_id;
      recommendation = recommendation;
      status = status;
    } in
    (m.next_id, record m { next_id = suc m.next_id; observations = m.observations ++ o ∷ [] })

unfoldable pub add_relationship : ℕ → Predicate → ℕ → Memory → ℕ × Memory
add_relationship subject_id predicate object_id m =
    let r : Relationship = record {
      id = m.next_id;
      subject_id = subject_id;
      predicate = predicate;
      object_id = object_id;
      retracted = false;
    } in
    (m.next_id, record m { next_id = suc m.next_id; relationships = m.relationships ++ r ∷ [] })

unfoldable pub link_evidence : ℕ → ℕ → NodeKind → Stance → Memory → Memory
link_evidence evidence_id target_id target_kind stance m =
    let l : EvidenceLink = record {
      evidence_id = evidence_id;
      target_id = target_id;
      target_kind = target_kind;
      stance = stance;
      retracted = false;
    } in
    record m { evidence_links = m.evidence_links ++ l ∷ [] }

unfoldable pub set_observation_status : ℕ → ObservationStatus → Memory → Memory
set_observation_status observation_id status m = record m {
  observations =
      update_where (λ o. o.id == observation_id) (λ o. record o { status = status }) m.observations;
}

abbrev pub observation : ℕ → Memory → Option Observation
observation observation_id m = find (λ o. o.id == observation_id) m.observations

-- `" ".join(s.split())`: each run of spaces between words is one space. `gap` says that one came
-- before and a word was already seen.
abbrev pub squeeze : Bool → Bool → Text → Text
squeeze started gap [] = []
squeeze started gap (c ∷ s) =
    let skipped = squeeze started true s in
    let kept = squeeze true false s in
    if is_space c then skipped else if started && gap then 32 ∷ c ∷ kept else c ∷ kept

abbrev pub is_space_or_period : ℕ → Bool
is_space_or_period c = c == 32 || c == b'.'

-- s.rstrip(" .")
abbrev pub rstrip_period : Text → Text
rstrip_period [] = []
rstrip_period (c ∷ s) =
    let rest = rstrip_period s in
    elim rest [ d ∷ t ↦ c ∷ d ∷ t | [] ↦ (if is_space_or_period c then [] else c ∷ []) ]

unfoldable pub statement_key : Text → Text
statement_key statement = rstrip_period (squeeze false false (lower statement))

-- btrim(s), of spaces only.
abbrev pub btrim_left : Text → Text
btrim_left [] = []
btrim_left (c ∷ s) = let rest = btrim_left s in if c == 32 then rest else c ∷ s

abbrev pub is_all_spaces : Text → Bool
is_all_spaces [] = true
is_all_spaces (c ∷ s) = c == 32 && is_all_spaces s

abbrev pub btrim_right : Text → Text
btrim_right [] = []
btrim_right (c ∷ s) = let rest = btrim_right s in if is_all_spaces (c ∷ s) then [] else c ∷ rest

-- regexp_replace(s, '\s+', ' ', 'g'); `inside` says that a run of spaces was already replaced.
abbrev pub collapse : (ℕ → Bool) → Bool → Text → Text
collapse is_blank inside [] = []
collapse is_blank inside (c ∷ s) =
    let skipped = collapse is_blank true s in
    let kept = collapse is_blank false s in
    if is_blank c then (if inside then skipped else 32 ∷ skipped) else c ∷ kept

-- rtrim(lower(regexp_replace(btrim(s), '\s+', ' ', 'g')), ' .')
unfoldable pub sql_key : Locale → Text → Text
sql_key l statement =
    rstrip_period (l.lower (collapse l.is_space false (btrim_right (btrim_left statement))))

abbrev pub is_in_domains : List ℕ → Memory → ℕ → Bool
is_in_domains domain_ids m node_id = any (λ d. any (is_tagged node_id d) m.node_domains) domain_ids

abbrev pub is_same_claim : Text → List ℕ → Memory → Hypothesis → Bool
is_same_claim statement domain_ids m h =
    is_in_domains domain_ids m h.id
    && is_live h.status
    && text_eq (sql_key m.locale h.statement) (statement_key statement)

unfoldable pub find_live_hypothesis : Text → List ℕ → Memory → Option ℕ
find_live_hypothesis statement domain_ids m =
    map_option (λ h. h.id) (find (is_same_claim statement domain_ids m) m.hypotheses)

abbrev pub is_relationship : ℕ → Predicate → ℕ → Relationship → Bool
is_relationship subject_id predicate object_id r =
    r.subject_id == subject_id
    && same_predicate r.predicate predicate
    && r.object_id == object_id
    && not r.retracted

unfoldable pub has_relationship : ℕ → Predicate → ℕ → Memory → Bool
has_relationship subject_id predicate object_id m =
    any (is_relationship subject_id predicate object_id) m.relationships

-- ORDER BY confidence DESC NULLS LAST
abbrev pub more_confident : Option ℕ → Option ℕ → Bool
more_confident none b = false
more_confident (some a) none = true
more_confident (some a) (some b) = ltb b a

unfoldable pub live_hypotheses : List ℕ → ℕ → Memory → List Hypothesis
live_hypotheses domain_ids limit m =
    let confidence : Hypothesis → Option ℕ = λ h. current_confidence h.id m in
    take limit (
      sort (λ g h. more_confident (confidence g) (confidence h))
        (filter (λ h. is_in_domains domain_ids m h.id && is_live h.status) m.hypotheses))

-- lower(name) = lower(%s) OR lower(%s) = ANY(lower of the aliases)
abbrev pub is_known_as : (Text → Text) → Text → Entity → Bool
is_known_as lower name e =
    text_eq (lower e.name) (lower name) || any (λ a. text_eq (lower a) (lower name)) e.aliases

unfoldable pub find_entity : Text → Memory → Option Entity
find_entity name m = find (λ e. e.active && is_known_as m.locale.lower name e) m.entities

unfoldable pub add_entity : Text → Text → Memory → Entity × Memory
add_entity name entity_type m =
    let e : Entity = record {
      id = m.next_id;
      name = name;
      entity_type = entity_type;
      aliases = [];
      active = true;
    } in
    (e, record m { next_id = suc m.next_id; entities = m.entities ++ e ∷ [] })

-- `SELECT id, excerpt FROM evidence WHERE id = ANY(%s)`; the table stands in the order of ids.
unfoldable pub evidence_texts : List ℕ → Memory → List (ℕ × Text)
evidence_texts evidence_ids m =
    map (λ (e : Evidence). (e.id, e.excerpt))
      (filter (λ e. any (λ k. k == e.id) evidence_ids) m.evidence)

abbrev pub texts_of_links : Memory → List EvidenceLink → List (ℕ × Text)
texts_of_links m [] = []
texts_of_links m (l ∷ links) =
    let rest = texts_of_links m links in
    elim (find (λ e. e.id == l.evidence_id) m.evidence) [
      | none ↦ rest
      | some e ↦ (e.id, e.excerpt) ∷ rest
    ]

unfoldable pub observation_evidence : ℕ → Memory → List (ℕ × Text)
observation_evidence observation_id m =
    texts_of_links m
      (filter (λ l. (l.target_id == observation_id) && not l.retracted) m.evidence_links)
