-- ===== src/Roles/Mapper.antt =====
-- Mapping related entities (src/collegium/roles/mapper.py). What the model answers is given; an
-- exception is `none`.
use collegium.Prelude.{
  ℕ, zero, suc, false, not, Option, none, some, List, [], ◌∷◌, ◌++◌, ◌==◌, if◌then◌else◌, filter,
  any,
}
use collegium.Text.{Text}
use collegium.Grounding.{get, is_empty_text}
use collegium.Grounding.Mentions.{mentions}
use collegium.Memory.{
  Memory, Observation, observation, Entity, Predicate, squeeze, node_domain_ids, evidence_texts,
  observation_evidence, find_entity, add_entity, tag_domains, has_relationship, add_relationship,
}
use collegium.Db.{Db, with_memory}
use collegium.Roles.Researcher.{without_repeats}

pub record MentionedEntity : Type 0 where
  pub name : Text
  pub entity_type : Text
  pub mentioned_in : List ℕ

-- A node and what it says.
abbrev pub Texts : Type 0
Texts = List (ℕ × Text)

-- texts[n - 1], where 1 <= n <= len(texts)
abbrev pub text_at : ℕ → Texts → Option (ℕ × Text)
text_at zero texts = none
text_at (suc i) texts = get texts i

abbrev pub place_in : Text → Option (ℕ × Text) → List ℕ → List ℕ
place_in name none rest = rest
place_in name (some (node_id, text)) rest = if mentions text name then node_id ∷ rest else rest

abbrev pub places_of : Texts → Text → List ℕ → List ℕ
places_of texts name [] = []
places_of texts name (n ∷ numbers) = place_in name (text_at n texts) (places_of texts name numbers)

abbrev pub entity_or_new : Text → Text → Option Entity → Memory → Entity × Memory
entity_or_new name entity_type (some e) m = (e, m)
entity_or_new name entity_type none m = add_entity name entity_type m

abbrev pub mention_once : ℕ → ℕ → Memory → Memory
mention_once node_id entity_id m =
    if has_relationship node_id Predicate.mentions entity_id m
    then m
    else (add_relationship node_id Predicate.mentions entity_id m).1

abbrev pub mention_all : List ℕ → ℕ → Memory → Memory
mention_all [] entity_id m = m
mention_all (node_id ∷ places) entity_id m =
    mention_all places entity_id (mention_once node_id entity_id m)

abbrev pub map_known : List ℕ → List ℕ → Entity × Memory → Memory
map_known domain_ids places (e, m) = mention_all places e.id (tag_domains e.id domain_ids m)

-- An entity that none of its texts mentions is left out.
abbrev pub map_places : Text → Text → List ℕ → List ℕ → Memory → Memory
map_places name entity_type domain_ids [] m = m
map_places name entity_type domain_ids (p ∷ places) m =
    map_known domain_ids (p ∷ places) (entity_or_new name entity_type (find_entity name m) m)

abbrev pub full_name : MentionedEntity → Text
full_name entity = squeeze false false entity.name

-- The body of the loop in `persist`.
abbrev pub map_one : Texts → List ℕ → MentionedEntity → Memory → Memory
map_one texts domain_ids entity m =
    let name = full_name entity in
    map_places name entity.entity_type domain_ids
      (places_of texts name (without_repeats [] entity.mentioned_in)) m

unfoldable pub map_all : Texts → List ℕ → List MentionedEntity → Memory → Memory
map_all texts domain_ids [] m = m
map_all texts domain_ids (entity ∷ entities) m =
    map_all texts domain_ids entities (map_one texts domain_ids entity m)

-- The observation, and the excerpts of its evidence and of the evidence named; empty ones left out.
abbrev pub texts_of : ℕ → Text → List ℕ → Memory → Texts
texts_of observation_id statement evidence_ids m =
    let attached = observation_evidence observation_id m in
    let more =
      filter (λ e. not (any (λ (x : ℕ × Text). x.0 == e.0) attached))
        (evidence_texts evidence_ids m) in
    (observation_id, statement) ∷ filter (λ t. not (is_empty_text t.1)) (attached ++ more)

abbrev pub map_observed :
    ℕ → List ℕ → List MentionedEntity → Memory → Option Observation → Option (Db → Db)
map_observed observation_id evidence_ids answer m none = none
map_observed observation_id evidence_ids answer m (some o) =
    let texts = texts_of observation_id o.statement evidence_ids m in
    some (with_memory (map_all texts (node_domain_ids observation_id m) answer))

-- `Mapper.prepare`
unfoldable pub prepare_map : ℕ → List ℕ → List MentionedEntity → Memory → Option (Db → Db)
prepare_map observation_id evidence_ids answer m =
    map_observed observation_id evidence_ids answer m (observation observation_id m)
