-- ===== src/Roles/Mapping.antt =====
-- A mention that is recorded stands in its text (`persist` in src/collegium/roles/mapper.py).
use collegium.Prelude.{
  mem-append_left, mem-append_last, ◌∙◌, ℕ, ◌≡◌, refl, sym, subst, Bool, true, false, some, List,
  [], ◌∷◌, All, Memᴰ, Bool-cases, Option-cases, inl, inr, find, ◌&&◌,
}
use collegium.Text.{Text, text_eq, text_eq_iff}
use collegium.Memory.{Memory, Locale, Entity, is_known_as, find_entity, add_entity, tag_domains}
use collegium.Roles.Mapper.{
  MentionedEntity, Texts, places_of, entity_or_new, mention_all, map_known, map_places, full_name,
  map_one, map_all,
}
use collegium.Roles.Researcher.{without_repeats}
use collegium.Roles.Mentions.{
  AddsMentions, IsPlace, AddsMentions-same, AddsMentions-trans, places_of-IsPlace,
  mention_all-AddsMentions, tag_domains-AddsMentions,
}

find-holds {ℓ} :
    {A : Type ℓ} (p : A → Bool) (xs : List A) (a : A)
    → find p xs ≡ some a
    → Memᴰ a xs × (p a ≡ true)
find-holds p [] a e = absurd (cc e)
find-holds p (x ∷ xs) a e = elim (Bool-cases (p x)) [
  | inl holds ↦
      let same : x ≡ a = cc (rw holds at e) in
      (Memᴰ.head (sym same), subst (λ y. p y ≡ true) same holds)
  | inr fails ↦ let (inside, holds) = find-holds p xs a (rw fails at e) in (Memᴰ.tail inside, holds)
]

right_of : (a b : Bool) → (a && b) ≡ true → b ≡ true
right_of true b h = h
right_of false b h = absurd (cc h)

-- The entity is there, known by the name; nothing else was added.
record IsFound (texts : Texts) (name : Text) (m : Memory) (x : Entity × Memory) : Type 0 where
  held : Memᴰ x.0 x.1.entities
  known : is_known_as m.locale.lower name x.0 ≡ true
  adds : AddsMentions texts m x.1

entity_or_new-IsFound :
    (texts : Texts) (name entity_type : Text) (m : Memory)
    → IsFound texts name m (entity_or_new name entity_type (find_entity name m) m)
unfolding find_entity add_entity
entity_or_new-IsFound texts name entity_type m =
    elim (Option-cases (find (λ e. e.active && is_known_as m.locale.lower name e) m.entities)) [
      | inl absent ↦
          let lower = m.locale.lower in
          let same : text_eq (lower name) (lower name) ≡ true =
            (text_eq_iff (lower name) (lower name)).1 refl in
          rw absent (record {
            held = mem-append_last _ m.entities;
            known = rw same refl;
            adds = AddsMentions-same texts m _ refl refl (λ e h. mem-append_left e m.entities _ h);
          })
      | inr (e, found) ↦
          let (inside, holds) =
            find-holds (λ k. k.active && is_known_as m.locale.lower name k) m.entities e found in
          rw found (record {
            held = inside;
            known = right_of e.active (is_known_as m.locale.lower name e) holds;
            adds = AddsMentions-same texts m m refl refl (λ k h. h);
          })
    ]

map_known-AddsMentions :
    (texts : Texts) (name : Text) (domain_ids places : List ℕ) (m : Memory) (x : Entity × Memory)
    → All (IsPlace texts name) places
    → IsFound texts name m x
    → AddsMentions texts m (map_known domain_ids places x)
map_known-AddsMentions texts name domain_ids places m (e, n) h f =
    let tagged = tag_domains e.id domain_ids n in
    let (tags, kept) = tag_domains-AddsMentions texts e.id domain_ids n in
    AddsMentions-trans texts m n (mention_all places e.id tagged) f.adds (
      AddsMentions-trans texts n tagged (mention_all places e.id tagged) tags (
        mention_all-AddsMentions texts name places e tagged h
          (subst (λ (l : Locale). is_known_as l.lower name e ≡ true)
            (sym (tags.located ∙ f.adds.located)) f.known)
          (kept e f.held)))

map_places-AddsMentions :
    (texts : Texts) (name entity_type : Text) (domain_ids places : List ℕ) (m : Memory)
    → All (IsPlace texts name) places
    → AddsMentions texts m (map_places name entity_type domain_ids places m)
map_places-AddsMentions texts name entity_type domain_ids [] m h =
    AddsMentions-same texts m m refl refl (λ e there. there)
map_places-AddsMentions texts name entity_type domain_ids (p ∷ places) m h =
    map_known-AddsMentions texts name domain_ids (p ∷ places) m
      (entity_or_new name entity_type (find_entity name m) m) h
      (entity_or_new-IsFound texts name entity_type m)

-- Whatever entities the model proposes, mapping keeps the relationships and the entities, and adds
-- only mentions: each of them from one of the texts, which mentions a name of the entity.
pub map_all-AddsMentions :
    (texts : Texts) (domain_ids : List ℕ) (entities : List MentionedEntity) (m : Memory)
    → AddsMentions texts m (map_all texts domain_ids entities m)
unfolding map_all
map_all-AddsMentions texts domain_ids [] m = AddsMentions-same texts m m refl refl (λ e h. h)
map_all-AddsMentions texts domain_ids (entity ∷ entities) m =
    let name = full_name entity in
    let places = places_of texts name (without_repeats [] entity.mentioned_in) in
    let n = map_one texts domain_ids entity m in
    AddsMentions-trans texts m n (map_all texts domain_ids entities n)
      (map_places-AddsMentions texts name entity.entity_type domain_ids places m
        (places_of-IsPlace texts name (without_repeats [] entity.mentioned_in)))
      (map_all-AddsMentions texts domain_ids entities n)
