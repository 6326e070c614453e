-- ===== src/Roles/Supporting.antt =====
-- What is stored as evidence is supported by its source (`store_evidence` in
-- src/collegium/roles/base.py, and the inserts of src/collegium/memory.py that it calls).
use collegium.Prelude.{
  All-mems, ℕ, any, ◌%◌, ◌⊎◌, ◌≤◌, ◌≡◌, refl, sym, ap, ◌∙◌, Option, none, some, List, [], ◌∷◌, All,
  All-append, All-map, min, arith, inl, inr, Memᴰ, Bool-cases, or_default, filter,
}
use collegium.Text.{Text, starts_with}
use collegium.Acquisition.{Document}
use collegium.Grounding.Passages.{IsStretch}
use collegium.Reliability.{
  SourceKind, classify_host, ceiling_for, classify_by, by_host, is_under, host_of, forum_prefixes,
  classify,
}
use collegium.Memory.{
  Memory, hundredths, Source, Evidence, NodeKind, Stance, kept_content, record_source, add_evidence,
  tag_domain, tag_domains, link_evidence,
}
use collegium.Roles.{
  GroundedEvidence, BearsOn, Targets, EvidenceOutcome, capped, label_of, target_of, is_resolved,
  is_in, Linking, link_to, link_stances, with_links, with_evidence, store_linked, store_more,
  store_evidence, no_outcome, EvidenceItem, Grounding, ground_evidence,
}
use collegium.Roles.Sources.{IsRecorded, record_source-IsRecorded}
use collegium.Roles.Quoting.{IsQuoted, ground_evidence-AllQuoted}

-- A row of evidence names a source among these: its excerpt is a stretch of that source's text, and
-- its reliability is at most what the source's kind allows.
pub record IsSupported (sources : List Source) (e : Evidence) : Type 0 where
  pub source : Source
  pub listed : Memᴰ source sources
  pub named : e.source_id ≡ some source.id
  pub stands : IsStretch e.excerpt (or_default source.content [])
  pub trusted : (r : ℕ) × (e.reliability ≡ some r) × (r ≤ ceiling_for source.uri)

-- Every row of evidence is one of the old ones, or it is supported.
abbrev pub IsOldOr : List Evidence → List Source → Evidence → Type 0
IsOldOr old sources e = Memᴰ e old ⊎ IsSupported sources e

abbrev pub AllSupported : List Evidence → Memory → Type 0
AllSupported old m = All (IsOldOr old m.sources) m.evidence

-- The evidence and the sources of a memory, which tags and links leave alone.
abbrev Same : Memory → Memory → Type 0
Same m n = (n.sources ≡ m.sources) × (n.evidence ≡ m.evidence)

tag_domains-Same :
    (node_id : ℕ) (domain_ids : List ℕ) (m : Memory) → Same m (tag_domains node_id domain_ids m)
unfolding tag_domains
tag_domains-Same node_id [] m = (refl, refl)
tag_domains-Same node_id (d ∷ domain_ids) m =
    tag_domains-Same node_id domain_ids (tag_domain node_id d m)

link_to-Same :
    (evidence_id : ℕ) (stance : Stance) (t : Option (ℕ × NodeKind)) (x : Linking)
    → Same x.memory (link_to evidence_id stance t x).memory
unfolding link_evidence
link_to-Same evidence_id stance none x = (refl, refl)
link_to-Same evidence_id stance (some (target, kind)) x =
    elim (Bool-cases (is_in x.linked target)) [
      | inl e ↦ rw e (refl, refl)
      | inr e ↦ rw e (refl, refl)
    ]

link_stances-Same :
    (evidence_id : ℕ) (targets : Targets) (bears_on : List BearsOn) (x : Linking)
    → Same x.memory (link_stances evidence_id targets bears_on x).memory
link_stances-Same evidence_id targets [] x = (refl, refl)
link_stances-Same evidence_id targets (s ∷ bears_on) x =
    let t = target_of (label_of s.hypothesis) targets in
    let first = link_to-Same evidence_id s.stance t x in
    let (sources, evidence) =
      link_stances-Same evidence_id targets bears_on (link_to evidence_id s.stance t x) in
    (sources ∙ first.0, evidence ∙ first.1)

classify_by-tens :
    (table : List (List Text × SourceKind × ℕ)) (host : Text)
    → All (λ row. row.2 % 10 ≡ 0) table
    → (classify_by table host).1 % 10 ≡ 0
classify_by-tens [] host h = refl
classify_by-tens ((hosts, kind, ceiling) ∷ table) host h =
    elim (Bool-cases (any (is_under host) hosts)) [
      | inl e ↦ rw e h.0
      | inr e ↦ rw e (classify_by-tens table host h.1)
    ]

by_host-tens : All (λ row. row.2 % 10 ≡ 0) by_host
by_host-tens = (refl, (refl, (refl, (refl, (refl, tt)))))

-- A ceiling is a whole number of hundredths, so that rounding stays below it.
classify_host-tens : (host : Text) → (classify_host host).1 % 10 ≡ 0
classify_host-tens host = elim (Bool-cases (any (λ p. starts_with p host) forum_prefixes)) [
  | inl e ↦ rw e refl
  | inr e ↦ rw e (classify_by-tens by_host host by_host-tens)
]

ceiling_for-tens : (uri : Text) → ceiling_for uri % 10 ≡ 0
unfolding classify
ceiling_for-tens uri = classify_host-tens (host_of uri)

capped-le : (g : GroundedEvidence) → hundredths (min 1000 (capped g)) ≤ ceiling_for g.document.url
capped-le g =
    let below : min 1000 (capped g) ≤ ceiling_for g.document.url = ground arith in
    omega (arith, below, ceiling_for-tens g.document.url)

-- What is supported stays so when sources are added.
IsSupported-kept :
    (old new : List Source) (e : Evidence)
    → ((s : Source) → Memᴰ s old → Memᴰ s new)
    → IsSupported old e
    → IsSupported new e
IsSupported-kept old new e kept p = record {
  source = p.source;
  listed = kept p.source p.listed;
  named = p.named;
  stands = p.stands;
  trusted = p.trusted;
}

AllSupported-kept :
    (rows : List Evidence) (old new : List Source) (evidence : List Evidence)
    → ((s : Source) → Memᴰ s old → Memᴰ s new)
    → All (IsOldOr rows old) evidence
    → All (IsOldOr rows new) evidence
AllSupported-kept rows old new evidence kept h =
    All-map evidence
      (λ e w. elim w [ inl m ↦ inl m | inr p ↦ inr (IsSupported-kept old new e kept p) ]) h

IsOldOr-itself : (rows : List Evidence) (sources : List Source) → All (IsOldOr rows sources) rows
IsOldOr-itself rows sources = All-mems rows (λ e m. inl m)

kept_content-text : (content : Text) → or_default (kept_content content) [] ≡ content
kept_content-text [] = refl
kept_content-text (c ∷ s) = refl

with_evidence-AllSupported :
    (rows : List Evidence) (g : GroundedEvidence) (m : Memory) (x : ℕ × Memory)
    → IsRecorded g.document m x
    → IsStretch g.excerpt g.document.content
    → AllSupported rows m
    → AllSupported rows (with_evidence g x).1
unfolding add_evidence
with_evidence-AllSupported rows g m (source_id, n) recorded stands h =
    let before = AllSupported-kept rows m.sources n.sources m.evidence recorded.kept h in
    let text : or_default recorded.source.content [] ≡ g.document.content =
      ap (λ c. or_default c []) recorded.content ∙ kept_content-text g.document.content in
    All-append (IsOldOr rows n.sources) n.evidence _ (rw recorded.same_evidence before) (
      (
        inr (record {
          source = recorded.source;
          listed = recorded.listed;
          named = ap some (sym recorded.named);
          stands = rw text stands;
          trusted = (hundredths (min 1000 (capped g)), refl, rw recorded.uri (capped-le g));
        }),
        tt,
      ))

AllSupported-Same :
    (rows : List Evidence) (m n : Memory) → Same m n → AllSupported rows m → AllSupported rows n
AllSupported-Same rows m n (sources, evidence) h = rw (sources, evidence) h

with_links-AllSupported :
    (rows : List Evidence) (evidence_id : ℕ) (stances : List BearsOn) (targets : Targets)
    (domain_ids : List ℕ) (o : EvidenceOutcome) (m : Memory)
    → AllSupported rows m
    → AllSupported rows (with_links evidence_id stances targets domain_ids o m).1
with_links-AllSupported rows evidence_id stances targets domain_ids o m h =
    let tagged = tag_domains evidence_id domain_ids m in
    let x : Linking = record { linked = []; touched = o.touched; memory = tagged } in
    AllSupported-Same rows tagged (link_stances evidence_id targets stances x).memory
      (link_stances-Same evidence_id targets stances x)
      (AllSupported-Same rows m tagged (tag_domains-Same evidence_id domain_ids m) h)

store_linked-AllSupported :
    (rows : List Evidence) (g : GroundedEvidence) (stances : List BearsOn) (targets : Targets)
    (domain_ids : List ℕ) (o : EvidenceOutcome) (m : Memory)
    → IsStretch g.excerpt g.document.content
    → AllSupported rows m
    → AllSupported rows (store_linked g stances targets domain_ids o m).1
store_linked-AllSupported rows g [] targets domain_ids o m stands h = h
store_linked-AllSupported rows g (s ∷ stances) targets domain_ids o m stands h =
    let x = record_source g.document.url (some g.document.title) g.document.content m in
    let after = with_evidence g x in
    with_links-AllSupported rows after.0 (s ∷ stances) targets domain_ids o after.1
      (with_evidence-AllSupported rows g m x (record_source-IsRecorded g.document m) stands h)

-- Storing adds only rows that are supported.
pub store_more-AllSupported :
    (rows : List Evidence) (documents : List Document) (grounded : List GroundedEvidence)
    (targets : Targets) (domain_ids : List ℕ) (x : EvidenceOutcome × Memory)
    → All (IsQuoted documents) grounded
    → AllSupported rows x.1
    → AllSupported rows (store_more grounded targets domain_ids x).1
store_more-AllSupported rows documents [] targets domain_ids x q h = h
store_more-AllSupported rows documents (g ∷ grounded) targets domain_ids (o, m) q h =
    let stances = filter (is_resolved targets) g.item.bears_on in
    store_more-AllSupported rows documents grounded targets domain_ids
      (store_linked g stances targets domain_ids o m) q.1
      (store_linked-AllSupported rows g stances targets domain_ids o m q.0.stands h)

-- Every row of evidence that storing adds, of what was grounded, is supported by a source that is
-- stored: its excerpt is a stretch of that source's text, and its reliability is at most what the
-- source's kind allows.
pub store_evidence-AllSupported :
    (items : List EvidenceItem) (documents : List Document) (g : Grounding) (targets : Targets)
    (domain_ids : List ℕ) (m : Memory)
    → ground_evidence items documents ≡ some g
    → AllSupported m.evidence (store_evidence g.grounded targets domain_ids m).1
unfolding store_evidence
store_evidence-AllSupported items documents g targets domain_ids m e =
    store_more-AllSupported m.evidence documents g.grounded targets domain_ids (no_outcome, m)
      (ground_evidence-AllQuoted items documents g e) (IsOldOr-itself m.evidence m.sources)
