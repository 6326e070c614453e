-- ===== src/Roles/Claims.antt =====
-- No claim is held twice (`find_live_hypothesis` in src/collegium/memory.py, as
-- src/collegium/roles/researcher.py uses it).
use collegium.Prelude.{
  ℕ, suc, ◌≤◌, ◌<◌, ◌≡◌, ◌≢◌, refl, sym, ◌∙◌, Bool, false, ◌&&◌, none, List, [], ◌∷◌, ◌++◌, All,
  All-map, All-append, Below, find, map_option, arith, Bool-cases, inl, inr, if◌then◌else◌,
}
use mathlib.Core.List.{append-nil}
use collegium.Text.{Text, text_eq, text_eq_iff}
use collegium.Memory.{
  Memory, Hypothesis, is_live, is_in_domains, is_same_claim, Locale, statement_key, sql_key,
}
use collegium.Roles.Quiet.{Quiet}

-- A live hypothesis of one of these domains.
abbrev pub is_held : List ℕ → Memory → Hypothesis → Bool
is_held domain_ids m h = is_in_domains domain_ids m h.id && is_live h.status

-- The database's keys of what the live hypotheses of these domains claim.
abbrev pub claims : List ℕ → Memory → List Hypothesis → List Text
claims domain_ids m [] = []
claims domain_ids m (h ∷ hypotheses) =
    let rest = claims domain_ids m hypotheses in
    if is_held domain_ids m h then sql_key m.locale h.statement ∷ rest else rest

abbrev pub NoTwins : List Text → Type 0
NoTwins [] = Unit
NoTwins (t ∷ texts) = All (λ s. s ≢ t) texts × NoTwins texts

-- No two live hypotheses of these domains have the same key, and the ids are below the next one.
pub record HoldsOnce (locale : Locale) (domain_ids : List ℕ) (m : Memory) : Type 0 where
  pub located : m.locale ≡ locale
  pub once : NoTwins (claims domain_ids m m.hypotheses)
  pub numbered : Below (λ (h : Hypothesis). h.id) m.next_id m.hypotheses

pub is_in_domains-Quiet :
    (domain_ids : List ℕ) (m n : Memory) (k : ℕ)
    → Quiet m n
    → k < m.next_id
    → is_in_domains domain_ids n k ≡ is_in_domains domain_ids m k
is_in_domains-Quiet [] m n k q h = refl
is_in_domains-Quiet (d ∷ domain_ids) m n k q h =
    rw (q.tags k d h, is_in_domains-Quiet domain_ids m n k q h) refl

pub claims-Quiet :
    (domain_ids : List ℕ) (m n : Memory) (hypotheses : List Hypothesis)
    → Quiet m n
    → Below (λ (h : Hypothesis). h.id) m.next_id hypotheses
    → claims domain_ids n hypotheses ≡ claims domain_ids m hypotheses
claims-Quiet domain_ids m n [] q below = refl
claims-Quiet domain_ids m n (h ∷ hypotheses) q below =
    let here = is_in_domains-Quiet domain_ids m n h.id q below.0 in
    rw (here, q.located, claims-Quiet domain_ids m n hypotheses q below.1) refl

pub HoldsOnce-Quiet :
    (locale : Locale) (domain_ids : List ℕ) (m n : Memory)
    → Quiet m n
    → HoldsOnce locale domain_ids m
    → HoldsOnce locale domain_ids n
HoldsOnce-Quiet locale domain_ids m n q h = record {
  located = q.located ∙ h.located;
  once = rw (q.same, claims-Quiet domain_ids m n m.hypotheses q h.numbered) h.once;
  numbered = rw q.same (All-map m.hypotheses (λ r lt. omega (arith, lt, q.later)) h.numbered);
}

pub claims-append :
    (domain_ids : List ℕ) (m : Memory) (hypotheses : List Hypothesis) (h : Hypothesis)
    → claims domain_ids m (hypotheses ++ h ∷ [])
      ≡ claims domain_ids m hypotheses ++ claims domain_ids m (h ∷ [])
claims-append domain_ids m [] h = refl
claims-append domain_ids m (g ∷ hypotheses) h =
    let rest = claims-append domain_ids m hypotheses h in
    elim (Bool-cases (is_held domain_ids m g)) [
      | inl e ↦ rw (e, rest) refl
      | inr e ↦ rw (e, rest) refl
    ]

pub NoTwins-append :
    (t : Text) (texts : List Text)
    → All (λ s. s ≢ t) texts
    → NoTwins texts
    → NoTwins (texts ++ t ∷ [])
NoTwins-append t [] apart once = (tt, tt)
NoTwins-append t (s ∷ texts) apart once = (
  All-append (λ r. r ≢ s) texts (t ∷ []) once.0 ((λ e. apart.0 (sym e), tt)),
  NoTwins-append t texts apart.1 once.1,
)

-- When none is found, none of the claims is this one.
pub not_found :
    (statement : Text) (domain_ids : List ℕ) (m : Memory) (hypotheses : List Hypothesis)
    → map_option (λ h. h.id) (find (is_same_claim statement domain_ids m) hypotheses) ≡ none
    → All (λ t. t ≢ statement_key statement) (claims domain_ids m hypotheses)
not_found statement domain_ids m [] e = tt
not_found statement domain_ids m (h ∷ hypotheses) e =
    elim (Bool-cases (is_same_claim statement domain_ids m h)) [
      | inl same ↦ absurd (cc (rw same at e))
      | inr other ↦
          let rest = not_found statement domain_ids m hypotheses (rw other at e) in
          elim (Bool-cases (is_held domain_ids m h)) [
            | inl held ↦
                let apart : text_eq (sql_key m.locale h.statement) (statement_key statement)
                    ≡ false =
                  ground (arith, other, held) in
                rw held (
                  (
                    λ same. cc (
                        (text_eq_iff (sql_key m.locale h.statement) (statement_key statement)).1
                          same),
                    rest,
                  ))
            | inr gone ↦ rw gone rest
          ]
    ]

-- A hypothesis that was added, with a claim of its own, and what was written after that.
pub HoldsOnce-add :
    (locale : Locale) (domain_ids : List ℕ) (m n : Memory) (new : Hypothesis)
    → new.id ≡ m.next_id
    → All (λ t. t ≢ sql_key m.locale new.statement) (claims domain_ids m m.hypotheses)
    → Quiet (record m { hypotheses = m.hypotheses ++ new ∷ [] }) n
    → suc m.next_id ≤ n.next_id
    → HoldsOnce locale domain_ids m
    → HoldsOnce locale domain_ids n
HoldsOnce-add locale domain_ids m n new id apart q later holds =
    let before : Memory = record m { hypotheses = m.hypotheses ++ new ∷ [] } in
    let old : claims domain_ids n m.hypotheses ≡ claims domain_ids m m.hypotheses =
      claims-Quiet domain_ids before n m.hypotheses q holds.numbered in
    record {
      located = q.located ∙ holds.located;
      once =
          rw (q.same, claims-append domain_ids n m.hypotheses new, old)
            (elim (Bool-cases (is_held domain_ids n new)) [
              | inl e ↦ rw e (
                  NoTwins-append (sql_key n.locale new.statement) (claims domain_ids m m.hypotheses)
                    (rw q.located apart) holds.once)
              | inr e ↦ rw (e, append-nil) holds.once
            ]);
      numbered = rw q.same (
          All-append (λ r. r.id < n.next_id) m.hypotheses (new ∷ [])
            (All-map m.hypotheses (λ r lt. omega (arith, lt, later)) holds.numbered)
            ((omega (arith, id, later), tt)));
    }
