-- ===== src/Historian/Acceptance.antt =====
-- When a hypothesis comes out accepted, and what becomes of those it refines (`persist` in
-- src/collegium/roles/historian.py).
use collegium.Prelude.{
  ℕ, ◌≤◌, ◌≡◌, ◌≢◌, refl, sym, subst, ap, ◌∙◌, true, false, Option, none, some, List, Memᴰ, map,
  mem_of_map, [], ◌∷◌, arith, Bool-cases, inl, inr, find, ◌==◌, length, find-update_self,
  find-update_ne, map_option,
}
use mathlib.Core.Option.{some-injective}
use collegium.Text.{Text, text_eq_iff, text_in, distinct}
use collegium.Jobs.{Verdict}
use collegium.Memory.{
  HypothesisStatus, accepted, Hypothesis, Memory, same_status, hypothesis, is_live, restate,
  set_hypothesis_status, critiques_of, current_confidence, supporting_source_uris,
}
use collegium.Db.{Db, enqueue_job}
use collegium.Historian.{
  site, sites_of, ruling_on, Ruling, settle_open, write_status, finish, apply_rules, persist, Note,
  moved,
}
use collegium.Historian.Records.{settle_open-status}
use collegium.Historian.Rules.{Deserves, decide-accepted_iff}

-- Two of the addresses are on different sites.
pub record TwoSites (uris : List Text) : Type 0 where
  pub one : Text
  pub other : Text
  pub one_listed : Memᴰ one uris
  pub other_listed : Memᴰ other uris
  pub apart : site one ≢ site other

text_in-mem : (texts : List Text) (t : Text) → Memᴰ t texts → text_in texts t ≡ true
text_in-mem [] t m = elim m [ ]
text_in-mem (u ∷ texts) t (Memᴰ.head e) = ground (arith, (text_eq_iff t u).1 e)
text_in-mem (u ∷ texts) t (Memᴰ.tail m) = ground (arith, text_in-mem texts t m)

-- Some text, where `distinct` leaves one.
distinct-some : (texts : List Text) → 1 ≤ length (distinct texts) → (a : Text) × Memᴰ a texts
unfolding distinct
distinct-some [] h = absurd (omega arith)
distinct-some (t ∷ texts) h = (t, Memᴰ.head refl)

record TwoTexts (texts : List Text) : Type 0 where
  one : Text
  other : Text
  one_listed : Memᴰ one texts
  other_listed : Memᴰ other texts
  apart : one ≢ other

distinct-two : (texts : List Text) → 2 ≤ length (distinct texts) → TwoTexts texts
unfolding distinct
distinct-two [] h = absurd (omega arith)
distinct-two (t ∷ texts) h = elim (Bool-cases (text_in texts t)) [
  | inl again ↦
      let p = distinct-two texts (rw again at h) in
      record {
        one = p.one;
        other = p.other;
        one_listed = Memᴰ.tail p.one_listed;
        other_listed = Memᴰ.tail p.other_listed;
        apart = p.apart;
      }
  | inr new ↦
      let (b, m) = distinct-some texts (omega (arith, rw new at h)) in
      record {
        one = t;
        other = b;
        one_listed = Memᴰ.head refl;
        other_listed = Memᴰ.tail m;
        apart = λ e. cc (new, text_in-mem texts t (subst (λ x. Memᴰ x texts) (sym e) m));
      }
]

two_sites : (uris : List Text) → 2 ≤ length (distinct (map site uris)) → TwoSites uris
two_sites uris h =
    let p = distinct-two (map site uris) h in
    let (u, mu, eu) = mem_of_map site p.one uris p.one_listed in
    let (w, mw, ew) = mem_of_map site p.other uris p.other_listed in
    record {
      one = u;
      other = w;
      one_listed = mu;
      other_listed = mw;
      apart = λ e. p.apart (cc (eu, ew, e));
    }

-- The status of the hypothesis with this id, if there is one.
abbrev pub status_of : ℕ → Memory → Option HypothesisStatus
status_of id m = map_option (λ h. h.status) (hypothesis id m)

restated :
    (s : HypothesisStatus) (by : Option ℕ) (o : Option Hypothesis)
    → map_option (λ h. h.status) (map_option (restate s by) o) ≡ map_option (λ _. s) o
restated s by none = refl
restated s by (some h) = refl

status-set_self :
    (id : ℕ) (s : HypothesisStatus) (by : Option ℕ) (m : Memory)
    → status_of id (set_hypothesis_status id s by m) ≡ map_option (λ _. s) (hypothesis id m)
unfolding hypothesis set_hypothesis_status
status-set_self id s by m =
    rw (find-update_self (λ h. h.id) id (restate s by) (λ r. refl) m.hypotheses)
      (restated s by (find (λ h. h.id == id) m.hypotheses))

status-set_ne :
    (j id : ℕ) (s : HypothesisStatus) (by : Option ℕ) (m : Memory)
    → j ≢ id
    → status_of j (set_hypothesis_status id s by m) ≡ status_of j m
unfolding hypothesis set_hypothesis_status
status-set_ne j id s by m ne =
    rw (find-update_ne (λ h. h.id) id (restate s by) (λ r. refl) j m.hypotheses ne)

-- The id of the row that a lookup finds.
found-id :
    (id : ℕ) (h : Hypothesis) (rows : List Hypothesis)
    → find (λ r. r.id == id) rows ≡ some h
    → h.id ≡ id
found-id id h [] e = cc
found-id id h (r ∷ rows) e = ground (arith, found-id id h rows)

write_status-status :
    (now job_id id : ℕ) (h : Hypothesis) (r : Ruling)
    → hypothesis id r.db.memory ≡ some h
    → status_of id (write_status now job_id h r).db.memory ≡ some r.status
unfolding write_status enqueue_job
write_status-status now job_id id h r found =
    let same : h.id ≡ id = unfold hypothesis in found-id id h r.db.memory.hypotheses found in
    ground (arith, same, status-set_self id r.status none r.db.memory, found)

write_status-keeps :
    (now job_id : ℕ) (h : Hypothesis) (r : Ruling) → (write_status now job_id h r).status ≡ r.status
unfolding write_status
write_status-keeps now job_id h r = ground arith

differs : (s : HypothesisStatus) → s ≢ accepted → same_status s accepted ≡ false
differs s ne = ground arith

finish-idle :
    (now job_id id : ℕ) (notes : List Note) (r : Ruling)
    → r.status ≢ accepted
    → (finish now job_id id notes r).0 ≡ r.db
unfolding finish
finish-idle now job_id id notes r ne = rw (differs r.status ne)

-- Where the rules do not say "accepted", the hypothesis does not come out accepted.
apply_rules-status :
    (now job_id id : ℕ) (v : Verdict) (round : ℕ) (h : Hypothesis) (db : Db)
    → hypothesis id db.memory ≡ some h
    → ruling_on id v h db.memory ≢ accepted
    → status_of id (apply_rules now job_id id v round h db).0.memory ≢ some accepted
unfolding apply_rules
apply_rules-status now job_id id v round h db found ne =
    let status = ruling_on id v h db.memory in
    let settled = settle_open now job_id id round (critiques_of id db.memory) status db in
    let ruled = write_status now job_id h settled in
    let (kept, result) =
      settle_open-status now job_id id round (critiques_of id db.memory) status db in
    let there : hypothesis id settled.db.memory ≡ some h = rw kept found in
    let written = write_status-status now job_id id h settled there in
    let settled_ne : settled.status ≢ accepted = ground (arith, result) in
    let ruled_ne : ruled.status ≢ accepted =
      rw (write_status-keeps now job_id h settled) settled_ne in
    λ out. settled_ne (
      some-injective _ _ (
        sym written
        ∙ subst (λ d. status_of id d.memory ≡ some accepted)
            (finish-idle now job_id id (moved h.status status ∷ []) ruled ruled_ne) out))

persist-live :
    (now job_id id : ℕ) (v : Verdict) (round : ℕ) (db : Db) (h : Hypothesis)
    → hypothesis id db.memory ≡ some h
    → is_live h.status ≡ true
    → persist now job_id id v round db ≡ some (apply_rules now job_id id v round h db)
unfolding persist
persist-live now job_id id v round db h found live = rw (found, persist) (rw live)

persist-ended :
    (now job_id id : ℕ) (v : Verdict) (round : ℕ) (db db' : Db) (notes : List Note) (h : Hypothesis)
    → hypothesis id db.memory ≡ some h
    → is_live h.status ≡ true
    → persist now job_id id v round db ≡ some (db', notes)
    → (apply_rules now job_id id v round h db).0 ≡ db'
persist-ended now job_id id v round db db' notes h found live done =
    ap (λ (p : Db × List Note). p.0)
      (some-injective _ _ (sym (persist-live now job_id id v round db h found live) ∙ done))

abbrev Earned : ℕ → Verdict → Memory → Type 0
Earned id v m =
    (c : ℕ) × (current_confidence id m ≡ some c)
    × Deserves v c (length (sites_of id m)) (critiques_of id m)
    × TwoSites (supporting_source_uris id m)

Earned-of_accepted :
    (id : ℕ) (v : Verdict) (h : Hypothesis) (m : Memory)
    → ruling_on id v h m ≡ accepted
    → Earned id v m
Earned-of_accepted id v h m e =
    let (c, assessed, d) = (decide-accepted_iff v _ (length (sites_of id m)) _).0 e in
    (c, assessed, d, two_sites (supporting_source_uris id m) d.independent)

agrees : (s : HypothesisStatus) → same_status s accepted ≡ true → s ≡ accepted
agrees s e = ground arith

-- A hypothesis comes out of the Historian's transaction accepted only if its current confidence is
-- 0.6 or more, the Skeptic does not reject it, no critique of severity 3 or more is open or upheld,
-- and two addresses of its supporting evidence are on different sites.
pub persist-accepted :
    (now job_id id : ℕ) (v : Verdict) (round : ℕ) (db db' : Db) (notes : List Note) (h : Hypothesis)
    → hypothesis id db.memory ≡ some h
    → is_live h.status ≡ true
    → persist now job_id id v round db ≡ some (db', notes)
    → status_of id db'.memory ≡ some accepted
    → (c : ℕ) × (current_confidence id db.memory ≡ some c)
      × Deserves v c (length (sites_of id db.memory)) (critiques_of id db.memory)
      × TwoSites (supporting_source_uris id db.memory)
persist-accepted now job_id id v round db db' notes h found live done out =
    let ended = persist-ended now job_id id v round db db' notes h found live done in
    let out' = subst (λ d. status_of id d.memory ≡ some accepted) (sym ended) out in
    elim (Bool-cases (same_status (ruling_on id v h db.memory) accepted)) [
      | inl said ↦ Earned-of_accepted id v h db.memory (agrees _ said)
      | inr denied ↦ absurd (
          apply_rules-status now job_id id v round h db found
            (λ e. cc (denied, ap (λ s. same_status s accepted) e)) out')
    ]
