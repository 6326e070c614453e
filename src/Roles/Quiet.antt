-- ===== src/Roles/Quiet.antt =====
-- Writes that neither change a hypothesis nor its domains (the inserts of src/collegium/memory.py,
-- as src/collegium/roles/researcher.py and base.py make them).
use collegium.Prelude.{
  ℕ, ◌≤◌, ◌<◌, ◌≡◌, refl, ap, ◌∙◌, Bool, false, ◌||◌, Option, none, some, List, [], ◌∷◌, ◌++◌,
  filter, any, arith, Bool-cases, inl, inr, String,
}
use collegium.Text.{Text}
use collegium.Memory.{
  Memory, Source, Stance, NodeKind, Predicate, source_or_new, find_last, is_version, kept_content,
  record_source, add_evidence, is_tagged, tag_domain, tag_domains, link_evidence, add_relationship,
  assess_confidence, set_observation_status, ObservationStatus,
}
use collegium.Roles.{
  GroundedEvidence, BearsOn, Targets, EvidenceOutcome, label_of, target_of, is_resolved, is_in,
  Linking, link_to, link_stances, with_evidence, store_linked, store_more, store_evidence,
  no_outcome,
}

-- From `m` to `n` the hypotheses are the same, ids are only used up, and the records that were there
-- have the domains that they had.
pub record Quiet (m n : Memory) : Type 0 where
  pub located : n.locale ≡ m.locale
  pub same : n.hypotheses ≡ m.hypotheses
  pub later : m.next_id ≤ n.next_id
  pub tags :
      (k d : ℕ)
      → k < m.next_id
      → any (is_tagged k d) n.node_domains ≡ any (is_tagged k d) m.node_domains

pub Quiet-refl : (m : Memory) → Quiet m m
Quiet-refl m = record { located = refl; same = refl; later = omega arith; tags = λ k d h. refl }

pub Quiet-trans : {m n p : Memory} → Quiet m n → Quiet n p → Quiet m p
Quiet-trans a b = record {
  located = b.located ∙ a.located;
  same = b.same ∙ a.same;
  later = omega (arith, a.later, b.later);
  tags = λ k d h. b.tags k d (omega (arith, a.later, h)) ∙ a.tags k d h;
}

any-append {ℓ} :
    {A : Type ℓ} (p : A → Bool) (xs : List A) (y : A)
    → p y ≡ false
    → any p (xs ++ y ∷ []) ≡ any p xs
any-append p [] y h = rw h refl
any-append p (x ∷ xs) y h = ap (λ b. p x || b) (any-append p xs y h)

other_tag : (k d n e : ℕ) → k < n → is_tagged k d (n, e) ≡ false
other_tag k d n e h = ground arith

tag_domain-Quiet :
    (m n : Memory) (node_id d : ℕ)
    → m.next_id ≤ node_id
    → Quiet m n
    → Quiet m (tag_domain node_id d n)
tag_domain-Quiet m n node_id d fresh q =
    elim (Bool-cases (any (is_tagged node_id d) n.node_domains)) [
      | inl e ↦ rw e (record { located = q.located; same = q.same; later = q.later; tags = q.tags })
      | inr e ↦ rw e (record {
        located = q.located;
        same = q.same;
        later = q.later;
        tags = λ k c h.
            any-append (is_tagged k c) n.node_domains (node_id, d)
              (other_tag k c node_id d (omega (arith, h, fresh)))
            ∙ q.tags k c h;
      })
    ]

pub tag_domains-Quiet :
    (m n : Memory) (node_id : ℕ) (domain_ids : List ℕ)
    → m.next_id ≤ node_id
    → Quiet m n
    → Quiet m (tag_domains node_id domain_ids n)
unfolding tag_domains
tag_domains-Quiet m n node_id [] fresh q = q
tag_domains-Quiet m n node_id (d ∷ domain_ids) fresh q =
    tag_domains-Quiet m (tag_domain node_id d n) node_id domain_ids fresh
      (tag_domain-Quiet m n node_id d fresh q)

pub add_relationship-Quiet :
    (s : ℕ) (p : Predicate) (o : ℕ) (m : Memory) → Quiet m (add_relationship s p o m).1
unfolding add_relationship
add_relationship-Quiet s p o m = record {
  located = refl;
  same = refl;
  later = omega arith;
  tags = λ k d h. refl;
}

pub assess_confidence-Quiet :
    (t c : ℕ) (r : String) (m : Memory) → Quiet m (assess_confidence t c r m)
unfolding assess_confidence
assess_confidence-Quiet t c r m = record {
  located = refl;
  same = refl;
  later = omega arith;
  tags = λ k d h. refl;
}

pub set_observation_status-Quiet :
    (o : ℕ) (s : ObservationStatus) (m : Memory) → Quiet m (set_observation_status o s m)
unfolding set_observation_status
set_observation_status-Quiet o s m = record {
  located = refl;
  same = refl;
  later = omega arith;
  tags = λ k d h. refl;
}

source_or_new-Quiet :
    (uri : Text) (title content : Option Text) (s : Option Source) (m : Memory)
    → Quiet m (source_or_new uri title content s m).1
source_or_new-Quiet uri title content (some s) m = Quiet-refl m
source_or_new-Quiet uri title content none m = record {
  located = refl;
  same = refl;
  later = omega arith;
  tags = λ k d h. refl;
}

-- The new row's id was not in use.
with_evidence-Quiet :
    (g : GroundedEvidence) (x : ℕ × Memory)
    → Quiet x.1 (with_evidence g x).1 × ((with_evidence g x).0 ≡ x.1.next_id)
unfolding add_evidence
with_evidence-Quiet g (source_id, m) =
    (record { located = refl; same = refl; later = omega arith; tags = λ k d h. refl }, refl)

link_to-Quiet :
    (evidence_id : ℕ) (stance : Stance) (t : Option (ℕ × NodeKind)) (x : Linking)
    → Quiet x.memory (link_to evidence_id stance t x).memory
unfolding link_evidence
link_to-Quiet evidence_id stance none x = Quiet-refl x.memory
link_to-Quiet evidence_id stance (some (target, kind)) x =
    elim (Bool-cases (is_in x.linked target)) [
      | inl e ↦ rw e (Quiet-refl x.memory)
      | inr e ↦
          rw e (record { located = refl; same = refl; later = omega arith; tags = λ k d h. refl })
    ]

link_stances-Quiet :
    (evidence_id : ℕ) (targets : Targets) (bears_on : List BearsOn) (x : Linking)
    → Quiet x.memory (link_stances evidence_id targets bears_on x).memory
link_stances-Quiet evidence_id targets [] x = Quiet-refl x.memory
link_stances-Quiet evidence_id targets (s ∷ bears_on) x =
    let t = target_of (label_of s.hypothesis) targets in
    Quiet-trans (link_to-Quiet evidence_id s.stance t x)
      (link_stances-Quiet evidence_id targets bears_on (link_to evidence_id s.stance t x))

store_linked-Quiet :
    (g : GroundedEvidence) (stances : List BearsOn) (targets : Targets) (domain_ids : List ℕ)
    (o : EvidenceOutcome) (m : Memory)
    → Quiet m (store_linked g stances targets domain_ids o m).1
unfolding record_source
store_linked-Quiet g [] targets domain_ids o m = Quiet-refl m
store_linked-Quiet g (s ∷ stances) targets domain_ids o m =
    let d = g.document in
    let kept = kept_content d.content in
    let x = record_source d.url (some d.title) d.content m in
    let y = with_evidence g x in
    let start : Linking = record {
      linked = [];
      touched = o.touched;
      memory = tag_domains y.0 domain_ids y.1;
    } in
    let sourced =
      source_or_new-Quiet d.url (some d.title) kept (find_last (is_version d.url kept) m.sources)
        m in
    let (evident, id) = with_evidence-Quiet g x in
    let tagged =
      tag_domains-Quiet m y.1 y.0 domain_ids (omega (arith, id, sourced.later))
        (Quiet-trans sourced evident) in
    Quiet-trans tagged (link_stances-Quiet y.0 targets (s ∷ stances) start)

store_more-Quiet :
    (grounded : List GroundedEvidence) (targets : Targets) (domain_ids : List ℕ)
    (x : EvidenceOutcome × Memory)
    → Quiet x.1 (store_more grounded targets domain_ids x).1
store_more-Quiet [] targets domain_ids x = Quiet-refl x.1
store_more-Quiet (g ∷ grounded) targets domain_ids (o, m) =
    let stances = filter (is_resolved targets) g.item.bears_on in
    Quiet-trans (store_linked-Quiet g stances targets domain_ids o m)
      (store_more-Quiet grounded targets domain_ids (store_linked g stances targets domain_ids o m))

pub store_evidence-Quiet :
    (grounded : List GroundedEvidence) (targets : Targets) (domain_ids : List ℕ) (m : Memory)
    → Quiet m (store_evidence grounded targets domain_ids m).1
unfolding store_evidence
store_evidence-Quiet grounded targets domain_ids m =
    store_more-Quiet grounded targets domain_ids (no_outcome, m)
