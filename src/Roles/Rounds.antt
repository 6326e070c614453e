-- ===== src/Roles/Rounds.antt =====
-- The loop of research, review, verdict and resolution comes to an end (the roles of
-- src/collegium/roles that enqueue each other's jobs).
use collegium.Prelude.{
  ℕ, suc, ◌+◌, ◌-◌, ◌*◌, ◌≤◌, ◌<◌, ◌≡◌, sym, ◌∙◌, subst, Option, none, some, List, [], ◌∷◌, ◌++◌,
  or_default, Memᴰ, All, All-map, All-mem, arith,
}
use collegium.Jobs.{
  Kind, scout, research, review, record_verdict, map_entities, resolve, strategize, corroborate,
  ask, draft, reply, announce, Payload, JobRow, Verdict,
}
use collegium.Memory.{Observation, Memory, hypothesis, observation}
use collegium.Db.{Adds-refl, Db, Adds}
use collegium.Historian.{Note, persist}
use collegium.Historian.Rounds.{IsFollowUp, persist-Follows}
use collegium.Historian.Records.{Holds}
use collegium.Roles.Skeptic.{prepare_review}
use collegium.Roles.Resolver.{prepare_resolve, prepare_corroborate}
use collegium.Roles.Researcher.{prepare_research}
use collegium.Roles.Loop.{Answers, required, committed, without_notes, perform_as, perform}
use collegium.Roles.Mapper.{MentionedEntity, prepare_map, map_observed}
use collegium.Roles.Ranks.{rank_of, rank, IsBelow, Descends}
use collegium.Roles.Steps.{
  review_live-Descends, resolve_live-Descends, IsFollowUp-IsBelow, corroborate_live-Descends,
  research_observed-Descends,
}

-- What a job that was performed leaves in the queue.
abbrev Ranked : ℕ → Db → Option Db → Type 0
Ranked n db none = Unit
Ranked n db (some db') = Adds (IsBelow n) db.queue db'.queue

Ranked-required {ℓ} :
    {A : Type ℓ} (n : ℕ) (db : Db) (o : Option A) (rest : A → Option Db)
    → ((a : A) → Ranked n db (rest a))
    → Ranked n db (required o rest)
Ranked-required n db none rest h = tt
Ranked-required n db (some a) rest h = h a

Ranked-committed :
    (n : ℕ) (db : Db) (o : Option (Db → Db)) → Descends n o → Ranked n db (committed o db)
Ranked-committed n db none h = tt
Ranked-committed n db (some change) h = h db

Ranked-persist :
    (now job_id hid : ℕ) (v : Verdict) (round : ℕ) (db : Db)
    → Ranked (3 * (2 - round) + 1) db (without_notes (persist now job_id hid v round db))
Ranked-persist now job_id hid v round db =
    go (persist now job_id hid v round db) (persist-Follows now job_id hid v round db)
  where
    go :
        (o : Option (Db × List Note))
        → Holds (λ db'. Adds (IsFollowUp hid round) db.queue db'.queue) o
        → Ranked (3 * (2 - round) + 1) db (without_notes o)
    go none h = tt
    go (some (db', notes)) h = record {
      added = h.added;
      grown = h.grown;
      each = All-map h.added (λ r f. IsFollowUp-IsBelow 0 0 hid round r f) h.each;
    }

map_observed-Descends :
    (observation_id : ℕ) (evidence_ids : List ℕ) (answer : List MentionedEntity) (m : Memory)
    (o : Option Observation)
    → Descends 0 (map_observed observation_id evidence_ids answer m o)
map_observed-Descends observation_id evidence_ids answer m none = tt
map_observed-Descends observation_id evidence_ids answer m (some o) =
    λ db. Adds-refl (IsBelow 0) db.queue

Ranked-perform :
    (k : Kind) (p : Payload) (now job_id : ℕ) (answers : Answers) (read : Memory) (db : Db)
    → Ranked (rank_of k p) db (perform_as k p now job_id answers read db)
unfolding perform_as prepare_research prepare_corroborate prepare_resolve prepare_review prepare_map
Ranked-perform research p now job_id answers read db =
    Ranked-required 10 db p.observation_id _ (λ o. Ranked-committed 10 db _ (
      research_observed-Descends now job_id o answers.documents answers.findings read
        (observation o read)))
Ranked-perform corroborate p now job_id answers read db =
    Ranked-required 10 db p.hypothesis_id _ (λ h. Ranked-committed 10 db _ (
      corroborate_live-Descends now job_id h answers.documents answers.evidence read
        (hypothesis h read)))
Ranked-perform resolve p now job_id answers read db =
    Ranked-required (rank_of resolve p) db p.hypothesis_id _ (λ h.
      Ranked-committed (rank_of resolve p) db _ (
        resolve_live-Descends now job_id h (or_default p.round 1) answers.documents answers.evidence
          read (hypothesis h read)))
Ranked-perform review p now job_id answers read db =
    Ranked-required (rank_of review p) db p.hypothesis_id _ (λ h.
      Ranked-committed (rank_of review p) db _ (
        review_live-Descends now job_id h (or_default p.round 0) answers.documents answers.review
          read (hypothesis h read)))
Ranked-perform record_verdict p now job_id answers read db =
    Ranked-required (rank_of record_verdict p) db p.hypothesis_id _ (λ h.
      Ranked-required (rank_of record_verdict p) db p.verdict _
        (λ v. Ranked-persist now job_id h v (or_default p.round 0) db))
Ranked-perform scout p now job_id answers read db = tt
Ranked-perform map_entities p now job_id answers read db =
    Ranked-required 0 db p.observation_id _ (λ o. Ranked-committed 0 db _ (
      map_observed-Descends o (or_default p.evidence_ids []) answers.entities read
        (observation o read)))
Ranked-perform strategize p now job_id answers read db = tt
Ranked-perform ask p now job_id answers read db = tt
Ranked-perform draft p now job_id answers read db = tt
Ranked-perform reply p now job_id answers read db = tt
Ranked-perform announce p now job_id answers read db = tt

-- A job that is performed keeps the queue, and adds only jobs of a lower rank to it.
pub perform-IsBelow :
    (now : ℕ) (job : JobRow) (answers : Answers) (read : Memory) (db db' : Db)
    → perform now job answers read db ≡ some db'
    → Adds (IsBelow (rank job)) db.queue db'.queue
perform-IsBelow now job answers read db db' e =
    subst (Ranked (rank job) db) e (Ranked-perform job.kind job.payload now job.id answers read db)

-- `s` is one of the jobs that performing `r` added, whatever memory and the queue were.
pub record StartedBy (r s : JobRow) : Type 0 where
  pub now : ℕ
  pub answers : Answers
  pub read : Memory
  pub db : Db
  pub db' : Db
  pub performed : perform now r answers read db ≡ some db'
  pub added : List JobRow
  pub grown : db'.queue.rows ≡ db.queue.rows ++ added
  pub listed : Memᴰ s added

-- A line of `n` jobs from `r` on, each started by the one before it.
pub data Line : ℕ → JobRow → Type 0 where
  ends : (r : JobRow) → Line 1 r
  goes_on : {n : ℕ} → (r s : JobRow) → StartedBy r s → Line n s → Line (suc n) r

append-cancel {ℓ} : {A : Type ℓ} (xs ys zs : List A) → xs ++ ys ≡ xs ++ zs → ys ≡ zs
append-cancel [] ys zs e = e
append-cancel (x ∷ xs) ys zs e = append-cancel xs ys zs (cc e)

StartedBy-IsBelow : (r s : JobRow) → StartedBy r s → rank s < rank r
StartedBy-IsBelow r s x =
    let a = perform-IsBelow x.now r x.answers x.read x.db x.db' x.performed in
    let same : a.added ≡ x.added =
      append-cancel x.db.queue.rows a.added x.added (sym a.grown ∙ x.grown) in
    All-mem (IsBelow (rank r)) s x.added x.listed (subst (All (IsBelow (rank r))) same a.each)

Line-rank : (n : ℕ) (r : JobRow) → Line n r → n ≤ suc (rank r)
Line-rank n r (ends r') = omega arith
Line-rank n r (goes_on r' s x l) = omega (arith, Line-rank _ s l, StartedBy-IsBelow r s x)

rank_of-le : (k : Kind) (p : Payload) → rank_of k p ≤ 10
rank_of-le scout p = omega arith
rank_of-le research p = omega arith
rank_of-le review p = omega arith
rank_of-le record_verdict p = omega arith
rank_of-le map_entities p = omega arith
rank_of-le resolve p = omega arith
rank_of-le strategize p = omega arith
rank_of-le corroborate p = omega arith
rank_of-le ask p = omega arith
rank_of-le draft p = omega arith
rank_of-le reply p = omega arith
rank_of-le announce p = omega arith

-- Whatever the search, the model and memory say, a line of jobs that start each other by research,
-- corroboration, review, verdict and resolution has at most eleven jobs.
pub Line-ends : (n : ℕ) (r : JobRow) → Line n r → n ≤ 11
Line-ends n r l = omega (arith, Line-rank n r l, rank_of-le r.kind r.payload)
