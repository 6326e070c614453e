-- ===== src/Roles/Reviewing.antt =====
-- What a review changes among the critiques (`persist` of src/collegium/roles/skeptic.py).
use collegium.Prelude.{
  ℕ, zero, suc, ◌≤◌, ◌≡◌, ◌≢◌, refl, ◌∙◌, true, not, Option, none, some, List, [], ◌∷◌, ◌++◌, All,
  All-append, length, length-take-le, filter, map, ◌==◌, arith, inl, inr, Bool-cases,
  map-update_where, length-append, ==_iff, update_where,
}
use mathlib.Core.List.{append-nil, append_assoc}
use collegium.Text.{Text, strip}
use collegium.Memory.{
  Memory, Critique, open_, is_open, set_critique_status, settle, add_critique, assess_confidence,
}
use collegium.Roles.{GroundedEvidence, is_in, label_of}
use collegium.Roles.Labels.{Labels, id_of}
use collegium.Roles.Storing.{store_evidence-critiques}
use collegium.Roles.Skeptic.{
  ProposedCritique, CritiqueResolution, SkepticReview, settle_found, settle_one, settle_all,
  raise_argued, raise_one, raise_all, new_critiques, only_hypothesis, write_review, without_label,
}

-- The ids that the labels stand for.
abbrev pub ids_of : Labels → List ℕ
ids_of labels = map (λ (l : Text × ℕ). l.1) labels

-- The critiques that the review was not asked about.
abbrev pub others : List ℕ → List Critique → List Critique
others ids critiques = filter (λ c. not (is_in ids c.id)) critiques

-- A new critique of this hypothesis: open, and with an argument.
pub record IsNew (hypothesis_id : ℕ) (c : Critique) : Type 0 where
  pub about : c.target_id ≡ hypothesis_id
  pub unsettled : c.status ≡ open_
  pub argued : c.argument ≢ []
  pub grave : (1 ≤ c.severity) × (c.severity ≤ 5)

id_of-in :
    (label : Text) (labels : Labels) (k : ℕ)
    → id_of label labels ≡ some k
    → is_in (ids_of labels) k ≡ true
id_of-in label [] k e = absurd (cc e)
id_of-in label ((known, id) ∷ labels) k e = ground (arith, id_of-in label labels k)

-- An update of one of the ids leaves the others.
others-update :
    (ids : List ℕ) (k : ℕ) (change : Critique → Critique) (critiques : List Critique)
    → is_in ids k ≡ true
    → ((c : Critique) → (change c).id ≡ c.id)
    → others ids (update_where (λ c. c.id == k) change critiques) ≡ others ids critiques
others-update ids k change [] here same = refl
others-update ids k change (c ∷ critiques) here same =
    let rest = others-update ids k change critiques here same in
    elim (Bool-cases (c.id == k)) [
      | inl e ↦
          let in_ids : is_in ids c.id ≡ true = rw ((==_iff c.id k).0 e) here in
          rw (e, same c, in_ids, rest) refl
      | inr e ↦ rw (e, rest) refl
    ]

settle_found-others :
    (ids : List ℕ) (r : CritiqueResolution) (found : Option ℕ) (m : Memory)
    → ((k : ℕ) → found ≡ some k → is_in ids k ≡ true)
    → others ids (settle_found r found m).critiques ≡ others ids m.critiques
unfolding set_critique_status
settle_found-others ids r none m here = refl
settle_found-others ids r (some k) m here = elim (Bool-cases (is_open r.status)) [
  | inl left ↦ rw left refl
  | inr closed ↦
      rw closed
        (others-update ids k (settle r.status r.resolution) m.critiques (here k refl) (λ c. refl))
]

settle_all-others :
    (labels : Labels) (resolutions : List CritiqueResolution) (m : Memory)
    → others (ids_of labels) (settle_all labels resolutions m).critiques
      ≡ others (ids_of labels) m.critiques
unfolding settle_all
settle_all-others labels [] m = refl
settle_all-others labels (r ∷ resolutions) m =
    settle_all-others labels resolutions (settle_one labels r m)
    ∙ settle_found-others (ids_of labels) r (id_of (label_of r.critique) labels) m
        (λ k found. id_of-in (label_of r.critique) labels k found)

abbrev pub critique_ids : List Critique → List ℕ
critique_ids critiques = map (λ (c : Critique). c.id) critiques

settle_found-ids :
    (r : CritiqueResolution) (found : Option ℕ) (m : Memory)
    → critique_ids (settle_found r found m).critiques ≡ critique_ids m.critiques
unfolding set_critique_status
settle_found-ids r none m = refl
settle_found-ids r (some k) m = elim (Bool-cases (is_open r.status)) [
  | inl left ↦ rw left refl
  | inr closed ↦ rw closed (
      map-update_where (λ (c : Critique). c.id) (λ c. c.id == k) (settle r.status r.resolution)
        m.critiques (λ c. refl))
]

settle_all-ids :
    (labels : Labels) (resolutions : List CritiqueResolution) (m : Memory)
    → critique_ids (settle_all labels resolutions m).critiques ≡ critique_ids m.critiques
unfolding settle_all
settle_all-ids labels [] m = refl
settle_all-ids labels (r ∷ resolutions) m =
    settle_all-ids labels resolutions (settle_one labels r m)
    ∙ settle_found-ids r (id_of (label_of r.critique) labels) m

-- At most `n` critiques are added, all new ones of this hypothesis.
pub record AddsNew (hypothesis_id n : ℕ) (m m' : Memory) : Type 0 where
  pub added : List Critique
  pub grown : m'.critiques ≡ m.critiques ++ added
  pub few : length added ≤ n
  pub each : All (IsNew hypothesis_id) added

raise_argued-AddsNew :
    (hypothesis_id : ℕ) (c : ProposedCritique) (argument : Text) (m : Memory)
    → AddsNew hypothesis_id 1 m (raise_argued hypothesis_id c argument m)
unfolding add_critique
raise_argued-AddsNew hypothesis_id c [] m = record {
  added = [];
  grown = rw append-nil;
  few = omega arith;
  each = tt;
}
raise_argued-AddsNew hypothesis_id c (a ∷ argument) m = record {
  added = _;
  grown = refl;
  few = omega arith;
  each = (
    record {
      about = refl;
      unsettled = refl;
      argued = λ e. cc e;
      grave = (omega arith, omega arith);
    },
    tt,
  );
}

raise_all-AddsNew :
    (hypothesis_id : ℕ) (critiques : List ProposedCritique) (m : Memory)
    → AddsNew hypothesis_id (length critiques) m (raise_all hypothesis_id critiques m)
unfolding raise_all
raise_all-AddsNew hypothesis_id [] m = record {
  added = [];
  grown = rw append-nil;
  few = omega arith;
  each = tt;
}
raise_all-AddsNew hypothesis_id (c ∷ critiques) m =
    let argument = strip (without_label c.argument) in
    let first = raise_argued-AddsNew hypothesis_id c argument m in
    let rest = raise_all-AddsNew hypothesis_id critiques (raise_one hypothesis_id c m) in
    record {
      added = first.added ++ rest.added;
      grown = rw (rest.grown, first.grown) (append_assoc m.critiques first.added rest.added);
      few = omega (arith, length-append first.added rest.added, first.few, rest.few);
      each = All-append (IsNew hypothesis_id) first.added rest.added first.each rest.each;
    }

-- How many new critiques a round may raise.
abbrev pub most_critiques : ℕ → ℕ
most_critiques zero = 3
most_critiques (suc round) = 1

few_new :
    (round : ℕ) (critiques : List ProposedCritique)
    → length critiques ≤ 3
    → length (new_critiques round critiques) ≤ most_critiques round
unfolding new_critiques
few_new zero critiques h = h
few_new (suc round) critiques h = length-take-le 1 critiques

-- The critiques before and after a review: the ones in the table are all kept, in their places, and
-- only those with these ids may have changed; the few added ones are new.
pub record IsReviewed (hypothesis_id round : ℕ) (ids : List ℕ) (critiques reviewed : List Critique)
    : Type 0 where
  pub settled : List Critique
  pub added : List Critique
  pub grown : reviewed ≡ settled ++ added
  pub kept : critique_ids settled ≡ critique_ids critiques
  pub untouched : others ids settled ≡ others ids critiques
  pub few : length added ≤ most_critiques round
  pub each : All (IsNew hypothesis_id) added

-- A review, whose model may propose at most three critiques, keeps every critique in the table,
-- changes none but those that it was asked about, and adds at most three new ones in the first round
-- and one later: open ones of this hypothesis, with an argument and a severity from one to five.
pub write_review-IsReviewed :
    (hypothesis_id round : ℕ) (labels : Labels) (answer : SkepticReview)
    (grounded : List GroundedEvidence) (domain_ids : List ℕ) (m : Memory)
    → length answer.critiques ≤ 3
    → IsReviewed hypothesis_id round
        (ids_of labels)
        m.critiques
        (write_review hypothesis_id round labels answer grounded domain_ids m).critiques
unfolding write_review assess_confidence
write_review-IsReviewed hypothesis_id round labels answer grounded domain_ids m three =
    let closed = settle_all labels answer.resolutions m in
    let proposed = new_critiques round answer.critiques in
    let x = raise_all-AddsNew hypothesis_id proposed closed in
    let raised = raise_all hypothesis_id proposed closed in
    record {
      settled = closed.critiques;
      added = x.added;
      grown =
          store_evidence-critiques grounded (only_hypothesis hypothesis_id) domain_ids raised
          ∙ x.grown;
      kept = settle_all-ids labels answer.resolutions m;
      untouched = settle_all-others labels answer.resolutions m;
      few = omega (arith, x.few, few_new round answer.critiques three);
      each = x.each;
    }
