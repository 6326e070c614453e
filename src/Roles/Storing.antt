-- ===== src/Roles/Storing.antt =====
-- What the storing of evidence leaves alone (`store_evidence` in src/collegium/roles/base.py).
use collegium.Prelude.{
  ℕ, ◌≡◌, refl, ◌∙◌, Option, none, some, List, [], ◌∷◌, Bool-cases, inl, inr, filter,
}
use collegium.Text.{Text}
use collegium.Memory.{
  Memory, Source, Stance, NodeKind, source_or_new, find_last, is_version, kept_content,
  record_source, add_evidence, tag_domain, tag_domains, link_evidence,
}
use collegium.Roles.{
  GroundedEvidence, BearsOn, Targets, EvidenceOutcome, capped, label_of, target_of, is_resolved,
  is_in, Linking, link_to, link_stances, with_evidence, store_linked, store_more, store_evidence,
  no_outcome,
}

-- A part of memory that none of the four inserts changes is kept.
module _ {ℓ} {A : Type ℓ} (part : Memory → A)
    (sourced : (uri : Text) (title : Option Text) (content : Option Text) (s : Option Source)
        (m : Memory)
      → part (source_or_new uri title content s m).1 ≡ part m)
    (added : (summary excerpt : Text) (source_id : ℕ) (reliability : Option ℕ) (m : Memory)
      → part (add_evidence summary excerpt source_id reliability m).1 ≡ part m)
    (tagged : (node_id domain_id : ℕ) (m : Memory) → part (tag_domain node_id domain_id m) ≡ part m)
    (linked : (evidence_id target : ℕ) (kind : NodeKind) (stance : Stance) (m : Memory)
      → part (link_evidence evidence_id target kind stance m) ≡ part m) where
  tag_domains-part :
      (node_id : ℕ) (domain_ids : List ℕ) (m : Memory)
      → part (tag_domains node_id domain_ids m) ≡ part m
  unfolding tag_domains
  tag_domains-part node_id [] m = refl
  tag_domains-part node_id (d ∷ domain_ids) m =
      tag_domains-part node_id domain_ids (tag_domain node_id d m) ∙ tagged node_id d m

  link_to-part :
      (evidence_id : ℕ) (stance : Stance) (t : Option (ℕ × NodeKind)) (x : Linking)
      → part (link_to evidence_id stance t x).memory ≡ part x.memory
  link_to-part evidence_id stance none x = refl
  link_to-part evidence_id stance (some (target, kind)) x =
      elim (Bool-cases (is_in x.linked target)) [
        | inl e ↦ rw e refl
        | inr e ↦ rw e (linked evidence_id target kind stance x.memory)
      ]

  link_stances-part :
      (evidence_id : ℕ) (targets : Targets) (bears_on : List BearsOn) (x : Linking)
      → part (link_stances evidence_id targets bears_on x).memory ≡ part x.memory
  link_stances-part evidence_id targets [] x = refl
  link_stances-part evidence_id targets (s ∷ bears_on) x =
      let t = target_of (label_of s.hypothesis) targets in
      link_stances-part evidence_id targets bears_on (link_to evidence_id s.stance t x)
      ∙ link_to-part evidence_id s.stance t x

  store_linked-part :
      (g : GroundedEvidence) (stances : List BearsOn) (targets : Targets) (domain_ids : List ℕ)
      (o : EvidenceOutcome) (m : Memory)
      → part (store_linked g stances targets domain_ids o m).1 ≡ part m
  unfolding record_source
  store_linked-part g [] targets domain_ids o m = refl
  store_linked-part g (s ∷ stances) targets domain_ids o m =
      let d = g.document in
      let kept = kept_content d.content in
      let known = find_last (is_version d.url kept) m.sources in
      let x = record_source d.url (some d.title) d.content m in
      let y = with_evidence g x in
      let start : Linking = record {
        linked = [];
        touched = o.touched;
        memory = tag_domains y.0 domain_ids y.1;
      } in
      link_stances-part y.0 targets (s ∷ stances) start
      ∙ tag_domains-part y.0 domain_ids y.1
      ∙ added g.item.summary g.excerpt x.0 (some (capped g)) x.1
      ∙ sourced d.url (some d.title) kept known m

  store_more-part :
      (grounded : List GroundedEvidence) (targets : Targets) (domain_ids : List ℕ)
      (x : EvidenceOutcome × Memory)
      → part (store_more grounded targets domain_ids x).1 ≡ part x.1
  store_more-part [] targets domain_ids x = refl
  store_more-part (g ∷ grounded) targets domain_ids (o, m) =
      let stances = filter (is_resolved targets) g.item.bears_on in
      store_more-part grounded targets domain_ids (store_linked g stances targets domain_ids o m)
      ∙ store_linked-part g stances targets domain_ids o m

source_or_new-critiques :
    (uri : Text) (title : Option Text) (content : Option Text) (s : Option Source) (m : Memory)
    → (source_or_new uri title content s m).1.critiques ≡ m.critiques
source_or_new-critiques uri title content (some s) m = refl
source_or_new-critiques uri title content none m = refl

pub store_evidence-critiques :
    (grounded : List GroundedEvidence) (targets : Targets) (domain_ids : List ℕ) (m : Memory)
    → (store_evidence grounded targets domain_ids m).1.critiques ≡ m.critiques
unfolding store_evidence add_evidence link_evidence
store_evidence-critiques grounded targets domain_ids m =
    store_more-part (λ n. n.critiques) source_or_new-critiques (λ s e i r n. refl) (λ n d k. refl)
      (λ e t k s n. refl) grounded targets domain_ids (no_outcome, m)
