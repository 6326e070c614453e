-- ===== src/Roles/Mentions.antt =====
-- What makes a mention, and adding them (`persist` in src/collegium/roles/mapper.py).
use collegium.Prelude.{
  subst, sym, ◌∙◌, ℕ, zero, suc, ◌≡◌, refl, true, Option, none, some, List, [], ◌∷◌, ◌++◌, All,
  All-append, All-map, Memᴰ, Bool-cases, inl, inr,
}
use mathlib.Core.List.{append-nil, append_assoc}
use collegium.Text.{Text}
use collegium.Grounding.{get}
use collegium.Grounding.Mentions.{mentions}
use collegium.Memory.{
  Memory, Locale, Entity, Predicate, Relationship, is_known_as, tag_domain, tag_domains,
  has_relationship, add_relationship,
}
use collegium.Roles.Mapper.{Texts, text_at, place_in, places_of, mention_once, mention_all}

-- A relationship that says which entity a text mentions: the text stands among the texts, and
-- mentions a name by which the entity is known.
pub record IsMention (texts : Texts) (lower : Text → Text) (entities : List Entity)
    (r : Relationship) : Type 0 where
  pub text : Text
  pub listed : Memᴰ (r.subject_id, text) texts
  pub entity : Entity
  pub held : Memᴰ entity entities
  pub about : r.object_id ≡ entity.id
  pub name : Text
  pub known : is_known_as lower name entity ≡ true
  pub stands : mentions text name ≡ true
  pub says : r.predicate ≡ Predicate.mentions

-- Relationships are added, each of them a mention; no entity is lost.
pub record AddsMentions (texts : Texts) (m n : Memory) : Type 0 where
  pub located : n.locale ≡ m.locale
  pub added : List Relationship
  pub grown : n.relationships ≡ m.relationships ++ added
  pub each : All (IsMention texts m.locale.lower n.entities) added
  pub kept : (e : Entity) → Memᴰ e m.entities → Memᴰ e n.entities

pub AddsMentions-same :
    (texts : Texts) (m n : Memory)
    → n.locale ≡ m.locale
    → n.relationships ≡ m.relationships
    → ((e : Entity) → Memᴰ e m.entities → Memᴰ e n.entities)
    → AddsMentions texts m n
AddsMentions-same texts m n located same kept = record {
  located = located;
  added = [];
  grown = rw append-nil same;
  each = tt;
  kept = kept;
}

IsMention-kept :
    (texts : Texts) (lower : Text → Text) (old new : List Entity) (r : Relationship)
    → ((e : Entity) → Memᴰ e old → Memᴰ e new)
    → IsMention texts lower old r
    → IsMention texts lower new r
IsMention-kept texts lower old new r kept p = record {
  text = p.text;
  listed = p.listed;
  entity = p.entity;
  held = kept p.entity p.held;
  about = p.about;
  name = p.name;
  known = p.known;
  stands = p.stands;
  says = p.says;
}

pub AddsMentions-trans :
    (texts : Texts) (m n p : Memory)
    → AddsMentions texts m n
    → AddsMentions texts n p
    → AddsMentions texts m p
AddsMentions-trans texts m n p a b = record {
  located = b.located ∙ a.located;
  added = a.added ++ b.added;
  grown = rw (b.grown, a.grown) (append_assoc m.relationships a.added b.added);
  each =
      All-append (IsMention texts m.locale.lower p.entities) a.added b.added
        (All-map a.added
          (λ r h. IsMention-kept texts m.locale.lower n.entities p.entities r b.kept h) a.each)
        (subst (λ (l : Locale). All (IsMention texts l.lower p.entities) b.added) a.located b.each);
  kept = λ e h. b.kept e (a.kept e h);
}

-- A place is a text that mentions the name.
abbrev pub IsPlace : Texts → Text → ℕ → Type 0
IsPlace texts name node_id =
    (text : Text) × Memᴰ (node_id, text) texts × (mentions text name ≡ true)

get-mem {ℓ} : {A : Type ℓ} (xs : List A) (i : ℕ) (a : A) → get xs i ≡ some a → Memᴰ a xs
get-mem [] i a e = absurd (cc e)
get-mem (x ∷ xs) zero a e = Memᴰ.head (cc e)
get-mem (x ∷ xs) (suc i) a e = Memᴰ.tail (get-mem xs i a e)

text_at-mem : (n : ℕ) (texts : Texts) (t : ℕ × Text) → text_at n texts ≡ some t → Memᴰ t texts
text_at-mem zero texts t e = absurd (cc e)
text_at-mem (suc i) texts t e = get-mem texts i t e

place_in-IsPlace :
    (texts : Texts) (name : Text) (o : Option (ℕ × Text)) (rest : List ℕ)
    → ((t : ℕ × Text) → o ≡ some t → Memᴰ t texts)
    → All (IsPlace texts name) rest
    → All (IsPlace texts name) (place_in name o rest)
place_in-IsPlace texts name none rest here h = h
place_in-IsPlace texts name (some (node_id, text)) rest here h =
    elim (Bool-cases (mentions text name)) [
      | inl e ↦ rw e ((text, here (node_id, text) refl, e), h)
      | inr e ↦ rw e h
    ]

pub places_of-IsPlace :
    (texts : Texts) (name : Text) (numbers : List ℕ)
    → All (IsPlace texts name) (places_of texts name numbers)
places_of-IsPlace texts name [] = tt
places_of-IsPlace texts name (n ∷ numbers) =
    place_in-IsPlace texts name (text_at n texts) (places_of texts name numbers)
      (λ t e. text_at-mem n texts t e) (places_of-IsPlace texts name numbers)

mention_once-AddsMentions :
    (texts : Texts) (name : Text) (node_id : ℕ) (e : Entity) (m : Memory)
    → IsPlace texts name node_id
    → is_known_as m.locale.lower name e ≡ true
    → Memᴰ e m.entities
    → AddsMentions texts m (mention_once node_id e.id m)
unfolding add_relationship
mention_once-AddsMentions texts name node_id e m (text, listed, stands) known held =
    elim (Bool-cases (has_relationship node_id Predicate.mentions e.id m)) [
      | inl there ↦ rw there (AddsMentions-same texts m m refl refl (λ k h. h))
      | inr new ↦ rw new (record {
        located = refl;
        added = _;
        grown = refl;
        each = (
          record {
            text = text;
            listed = listed;
            entity = e;
            held = held;
            about = refl;
            name = name;
            known = known;
            stands = stands;
            says = refl;
          },
          tt,
        );
        kept = λ k h. h;
      })
    ]

pub mention_all-AddsMentions :
    (texts : Texts) (name : Text) (places : List ℕ) (e : Entity) (m : Memory)
    → All (IsPlace texts name) places
    → is_known_as m.locale.lower name e ≡ true
    → Memᴰ e m.entities
    → AddsMentions texts m (mention_all places e.id m)
mention_all-AddsMentions texts name [] e m h known held =
    AddsMentions-same texts m m refl refl (λ k there. there)
mention_all-AddsMentions texts name (p ∷ places) e m h known held =
    let n = mention_once p e.id m in
    let first = mention_once-AddsMentions texts name p e m h.0 known held in
    AddsMentions-trans texts m n (mention_all places e.id n) first (
      mention_all-AddsMentions texts name places e n h.1
        (subst (λ (l : Locale). is_known_as l.lower name e ≡ true) (sym first.located) known)
        (first.kept e held))

pub tag_domains-AddsMentions :
    (texts : Texts) (node_id : ℕ) (domain_ids : List ℕ) (m : Memory)
    → AddsMentions texts m (tag_domains node_id domain_ids m)
      × ((e : Entity) → Memᴰ e m.entities → Memᴰ e (tag_domains node_id domain_ids m).entities)
unfolding tag_domains
tag_domains-AddsMentions texts node_id [] m =
    (AddsMentions-same texts m m refl refl (λ e h. h), λ e h. h)
tag_domains-AddsMentions texts node_id (d ∷ domain_ids) m =
    let n = tag_domain node_id d m in
    let (rest, kept) = tag_domains-AddsMentions texts node_id domain_ids n in
    (
      AddsMentions-trans texts m n (tag_domains node_id domain_ids n)
          (AddsMentions-same texts m n refl refl (λ e h. h)) rest,
      kept,
    )
