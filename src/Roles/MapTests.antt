-- ===== src/Roles/MapTests.antt =====
-- Mapping entities and reading labels back, on small examples.
use collegium.Prelude.{true, false, ◌≡◌, refl, List, [], ◌∷◌}
use collegium.Text.{Text, codes}
use collegium.Grounding.{normalize}
use collegium.Memory.{
  tag_domains, Entity, Predicate, find_entity, has_relationship, add_relationship, Memory,
  no_memory,
}
use collegium.Grounding.Mentions.{mentions}
use collegium.Roles.Mapper.{MentionedEntity, Texts, map_all}
use collegium.Roles.Mentions.{AddsMentions}
use collegium.Roles.Mapping.{map_all-AddsMentions}

-- Three names, of which the texts mention the first alone; it is known by an alias.
abbrev council : Entity
council = record {
  id = 5;
  name = codes "City of Oslo";
  entity_type = codes "organization";
  aliases = codes "Council" ∷ [];
  active = true;
}

abbrev texts : Texts
texts = (6, codes "A school will open.") ∷ (7, codes "Council opens one school.") ∷ []

abbrev named : Text → MentionedEntity
named name = record { name = name; entity_type = codes "other"; mentioned_in = 2 ∷ 9 ∷ 2 ∷ [] }

abbrev proposed_names : List MentionedEntity
proposed_names = named (codes "council") ∷ named (codes "Coun") ∷ named (codes "Bergen") ∷ []

abbrev known_council : Memory
known_council = record no_memory { next_id = 10; entities = council ∷ [] }

maps_council :
    (map_all texts (9 ∷ []) proposed_names known_council).relationships
    ≡ record {
      id = 10;
      subject_id = 7;
      predicate = Predicate.mentions;
      object_id = 5;
      retracted = false;
    }
      ∷ []
unfolding map_all mentions normalize find_entity has_relationship add_relationship tag_domains
maps_council = refl

map_all-AddsMentions_example :
    AddsMentions texts known_council (map_all texts (9 ∷ []) proposed_names known_council)
map_all-AddsMentions_example = map_all-AddsMentions texts (9 ∷ []) proposed_names known_council
