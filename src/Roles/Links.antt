-- ===== src/Roles/Links.antt =====
-- The links of one piece of evidence (the inner loop of `store_evidence` in
-- src/collegium/roles/base.py).
use collegium.Prelude.{
  ℕ, ◌≡◌, ◌≢◌, refl, sym, ap, ◌∙◌, true, false, Option, none, some, List, [], ◌∷◌, ◌++◌, All,
  All-append, map, Bool-cases, inl, inr, arith,
}
use mathlib.Core.List.{append-nil, append_assoc}
use collegium.Memory.{Memory, Stance, NodeKind, EvidenceLink, link_evidence}
use collegium.Roles.{BearsOn, Targets, label_of, target_of, is_in, Linking, link_to, link_stances}

-- No id twice.
abbrev pub AllDifferent : List ℕ → Type 0
AllDifferent [] = Unit
AllDifferent (n ∷ ids) = All (λ k. k ≢ n) ids × AllDifferent ids

-- The links from this evidence so far: one to each of the targets in `linked`.
pub record LinksOnce (evidence_id : ℕ) (m : Memory) (x : Linking) : Type 0 where
  pub added : List EvidenceLink
  pub grown : x.memory.evidence_links ≡ m.evidence_links ++ added
  pub targeted : map (λ (l : EvidenceLink). l.target_id) added ≡ x.linked
  pub owned : All (λ l. l.evidence_id ≡ evidence_id) added
  pub once : AllDifferent x.linked

fresh : (n : ℕ) (ids : List ℕ) → is_in ids n ≡ false → All (λ k. k ≢ n) ids
fresh n [] h = tt
fresh n (k ∷ ids) h = (ground arith, fresh n ids (ground arith))

AllDifferent-append :
    (n : ℕ) (ids : List ℕ) → is_in ids n ≡ false → AllDifferent ids → AllDifferent (ids ++ n ∷ [])
AllDifferent-append n [] h d = (tt, tt)
AllDifferent-append n (k ∷ ids) h (d, ds) =
    let apart = fresh n (k ∷ ids) h in
    (
      All-append (λ j. j ≢ k) ids (n ∷ []) d ((λ e. apart.0 (sym e), tt)),
      AllDifferent-append n ids (ground arith) ds,
    )

map-append_last {ℓ κ} :
    {A : Type ℓ} {B : Type κ} (f : A → B) (xs : List A) (y : A)
    → map f (xs ++ y ∷ []) ≡ map f xs ++ f y ∷ []
map-append_last f [] y = refl
map-append_last f (x ∷ xs) y = ap (◌∷◌ (f x)) (map-append_last f xs y)

link_to-LinksOnce :
    (evidence_id : ℕ) (stance : Stance) (t : Option (ℕ × NodeKind)) (m : Memory) (x : Linking)
    → LinksOnce evidence_id m x
    → LinksOnce evidence_id m (link_to evidence_id stance t x)
unfolding link_evidence
link_to-LinksOnce evidence_id stance none m x h = h
link_to-LinksOnce evidence_id stance (some (target, kind)) m x h =
    elim (Bool-cases (is_in x.linked target)) [
      | inl e ↦ rw e h
      | inr e ↦
          let l : EvidenceLink = record {
            evidence_id = evidence_id;
            target_id = target;
            target_kind = kind;
            stance = stance;
            retracted = false;
          } in
          rw e (record {
            added = h.added ++ l ∷ [];
            grown = rw h.grown (append_assoc m.evidence_links h.added (l ∷ []));
            targeted =
                map-append_last (λ (k : EvidenceLink). k.target_id) h.added l
                ∙ ap (λ ids. ids ++ target ∷ []) h.targeted;
            owned =
                All-append (λ k. k.evidence_id ≡ evidence_id) h.added (l ∷ []) h.owned (refl, tt);
            once = AllDifferent-append target x.linked e h.once;
          })
    ]

link_stances-LinksOnce :
    (evidence_id : ℕ) (targets : Targets) (bears_on : List BearsOn) (m : Memory) (x : Linking)
    → LinksOnce evidence_id m x
    → LinksOnce evidence_id m (link_stances evidence_id targets bears_on x)
link_stances-LinksOnce evidence_id targets [] m x h = h
link_stances-LinksOnce evidence_id targets (s ∷ bears_on) m x h =
    let t = target_of (label_of s.hypothesis) targets in
    link_stances-LinksOnce evidence_id targets bears_on m (link_to evidence_id s.stance t x)
      (link_to-LinksOnce evidence_id s.stance t m x h)

in_append : (k : ℕ) (xs ys : List ℕ) → is_in xs k ≡ true → is_in (xs ++ ys) k ≡ true
in_append k [] ys h = absurd (cc h)
in_append k (x ∷ xs) ys h = ground (arith, in_append k xs ys)

in_last : (k : ℕ) (xs : List ℕ) → is_in (xs ++ k ∷ []) k ≡ true
in_last k [] = ground arith
in_last k (x ∷ xs) = ground (arith, in_last k xs)

-- Whatever is linked stays so, and a target is linked once it was asked for.
link_to-in :
    (evidence_id : ℕ) (stance : Stance) (t : Option (ℕ × NodeKind)) (x : Linking) (k : ℕ)
    → is_in x.linked k ≡ true
    → is_in (link_to evidence_id stance t x).linked k ≡ true
link_to-in evidence_id stance none x k h = h
link_to-in evidence_id stance (some (target, kind)) x k h =
    elim (Bool-cases (is_in x.linked target)) [
      | inl e ↦ rw e h
      | inr e ↦ rw e (in_append k x.linked (target ∷ []) h)
    ]

link_to-links :
    (evidence_id : ℕ) (stance : Stance) (target : ℕ) (kind : NodeKind) (x : Linking)
    → is_in (link_to evidence_id stance (some (target, kind)) x).linked target ≡ true
link_to-links evidence_id stance target kind x = elim (Bool-cases (is_in x.linked target)) [
  | inl e ↦ rw e e
  | inr e ↦ rw e (in_last target x.linked)
]

link_stances-in :
    (evidence_id : ℕ) (targets : Targets) (bears_on : List BearsOn) (x : Linking) (k : ℕ)
    → is_in x.linked k ≡ true
    → is_in (link_stances evidence_id targets bears_on x).linked k ≡ true
link_stances-in evidence_id targets [] x k h = h
link_stances-in evidence_id targets (s ∷ bears_on) x k h =
    let t = target_of (label_of s.hypothesis) targets in
    link_stances-in evidence_id targets bears_on (link_to evidence_id s.stance t x) k
      (link_to-in evidence_id s.stance t x k h)

-- What a stance bears on is linked.
abbrev pub IsLinked : Targets → List ℕ → BearsOn → Type 0
IsLinked targets linked s =
    (target : ℕ) (kind : NodeKind)
    → target_of (label_of s.hypothesis) targets ≡ some (target, kind)
    → is_in linked target ≡ true

link_stances-IsLinked :
    (evidence_id : ℕ) (targets : Targets) (bears_on : List BearsOn) (x : Linking)
    → All (IsLinked targets (link_stances evidence_id targets bears_on x).linked) bears_on
link_stances-IsLinked evidence_id targets [] x = tt
link_stances-IsLinked evidence_id targets (s ∷ bears_on) x =
    let t = target_of (label_of s.hypothesis) targets in
    let next = link_to evidence_id s.stance t x in
    (
      λ target kind e.
          link_stances-in evidence_id targets bears_on next target
            (rw e (link_to-links evidence_id s.stance target kind x)),
      link_stances-IsLinked evidence_id targets bears_on next,
    )

-- When the links of a piece of evidence start from none, then afterwards every record that one of
-- its stances names is linked, and none twice, however often the stances name it.
pub link_stances-once :
    (evidence_id : ℕ) (targets : Targets) (bears_on : List BearsOn) (x : Linking)
    → x.linked ≡ []
    → let x' = link_stances evidence_id targets bears_on x in
      LinksOnce evidence_id x.memory x' × All (IsLinked targets x'.linked) bears_on
link_stances-once evidence_id targets bears_on x none_yet = (
  link_stances-LinksOnce evidence_id targets bears_on x.memory x (record {
    added = [];
    grown = rw append-nil refl;
    targeted = sym none_yet;
    owned = tt;
    once = rw none_yet tt;
  }),
  link_stances-IsLinked evidence_id targets bears_on x,
)
