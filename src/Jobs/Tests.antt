-- ===== src/Jobs/Tests.antt =====
-- The queue on small examples.
use collegium.Prelude.{
  ℕ, ◌≡◌, refl, Bool, false, none, some, [], ◌∷◌, Memᴰ, least, arith, ◌≢◌, ◌==◌,
}
use collegium.Jobs.{
  scout, research, running, no_payload, JobRow, Queue, new_row, enqueue, snapshot, start_attempt,
  is_due, before, candidates, claim, backoff,
}
use collegium.Jobs.Claiming.{Claimed, claim-Claimed}
use collegium.Jobs.Attempts.{IsSound, here, next, enqueued, claimed, no_jobs, Reach-IsSound}
use collegium.Jobs.Exhausted.{claim-keeps_exhausted}

abbrev one_job : Queue
one_job = (enqueue 1000 scout no_payload none 3 no_jobs).1

abbrev two_jobs : Queue
two_jobs = (enqueue 1100 research no_payload none 1 one_job).1

abbrev urgent : JobRow
urgent = new_row 1100 research no_payload none 1 1

abbrev patient : JobRow
patient = new_row 1000 scout no_payload none 3 0

abbrev unlocked : ℕ → Bool
unlocked id = false

-- The job of the lower priority number goes first, though it is the newer one.
urgent_first :
    claim 2000 none unlocked two_jobs
    ≡ some (
      snapshot (start_attempt 2000 urgent),
      record two_jobs { rows = patient ∷ start_attempt 2000 urgent ∷ [] },
    )
unfolding claim candidates is_due least before enqueue
urgent_first = refl

-- A second worker skips the locked row.
locked_skipped :
    claim 2000 none (λ id. id == 1) two_jobs
    ≡ some (
      snapshot (start_attempt 2000 patient),
      record two_jobs { rows = start_attempt 2000 patient ∷ urgent ∷ [] },
    )
unfolding claim candidates is_due least before enqueue
locked_skipped = refl

nothing_yet : claim 500 none unlocked two_jobs ≡ none
unfolding claim candidates is_due least before enqueue
nothing_yet = refl

backoffs : (backoff 1 ≡ 120) × (backoff 2 ≡ 240) × (backoff 3 ≡ 480)
unfolding backoff
backoffs = (refl, refl, refl)

claim-Claimed_example : Claimed 2000 none unlocked two_jobs (claim 2000 none unlocked two_jobs)
claim-Claimed_example = claim-Claimed 2000 none unlocked two_jobs

-- Two jobs are queued and one is claimed.
abbrev after_claim : Queue
after_claim = record two_jobs { rows = patient ∷ start_attempt 2000 urgent ∷ [] }

Reach-IsSound_example : IsSound after_claim
Reach-IsSound_example = Reach-IsSound (
    next
      (next (next here (enqueued 1000 scout no_payload none 3 refl))
        (enqueued 1100 research no_payload none 1 refl))
      (claimed 2000 none unlocked (snapshot (start_attempt 2000 urgent)) urgent_first))

-- A row whose third and last attempt was cut off, beside one that is due.
abbrev cut_off : JobRow
cut_off = record patient { status = running; attempts = 3; started_at = some 1500 }

abbrev with_cut_off : Queue
with_cut_off = record { next_id = 2; rows = cut_off ∷ urgent ∷ [] }

claim_beside :
    claim 100000 none unlocked with_cut_off
    ≡ some (
      snapshot (start_attempt 100000 urgent),
      record with_cut_off { rows = cut_off ∷ start_attempt 100000 urgent ∷ [] },
    )
unfolding claim candidates is_due least before
claim_beside = refl

claim-keeps_exhausted_example :
    ((snapshot (start_attempt 100000 urgent)).id ≢ cut_off.id)
    × Memᴰ cut_off (cut_off ∷ start_attempt 100000 urgent ∷ [])
claim-keeps_exhausted_example =
    claim-keeps_exhausted 100000 none unlocked with_cut_off cut_off
      ((λ e. absurd (omega arith), tt), (tt, tt)) (Memᴰ.head refl)
      (record { under_way = refl; spent = omega arith }) claim_beside
