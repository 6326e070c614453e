-- ===== src/Historian/Tests.antt =====
-- The Historian on a small example: a hypothesis with support from two sites, and one that it refines.
use collegium.Prelude.{ℕ, ◌≡◌, ◌↔◌, refl, none, some, [], ◌∷◌, length, inr, false}
use collegium.Text.{Text, codes, distinct}
use collegium.Text.Url.{hostname}
use collegium.Jobs.{accept}
use collegium.Jobs.Attempts.{no_jobs}
use collegium.Memory.{
  under_review, accepted, superseded, Hypothesis, Source, Evidence, supports, hypothesis_node,
  EvidenceLink, refines, Memory, no_memory, hypothesis, current_confidence, critiques_of,
  supporting_source_uris, is_supporting, uri_of_link, refined_hypotheses, set_hypothesis_status,
  node_domain_ids,
}
use collegium.Db.{Db, Adds}
use collegium.Historian.{
  decide, site, sites_of, persist, apply_rules, settle_open, write_status, finish, supersede_all,
  supersede, reads_moltbook,
}
use collegium.Historian.Rules.{Deserves, decide-accepted_iff}
use collegium.Historian.Records.{AreConsistent, Holds, persist-consistent}
use collegium.Historian.Rounds.{IsFollowUp, persist-Follows}
use collegium.Historian.Acceptance.{status_of, TwoSites, persist-accepted}

abbrev claimed : Hypothesis
claimed = record {
  id = 1;
  statement = codes "it is so";
  rationale = none;
  status = under_review;
  superseded_by = none;
}

abbrev refined : Hypothesis
refined = record claimed { id = 2; status = accepted }

abbrev source : ℕ → Text → Source
source id uri = record { id = id; uri = uri; title = none; content = none; author = none }

abbrev evidence : ℕ → ℕ → Evidence
evidence id source_id = record {
  id = id;
  summary = [];
  excerpt = [];
  source_id = some source_id;
  reliability = none;
}

abbrev support : ℕ → EvidenceLink
support evidence_id = record {
  evidence_id = evidence_id;
  target_id = 1;
  target_kind = hypothesis_node;
  stance = supports;
  retracted = false;
}

abbrev memory : Memory
memory = record no_memory {
  next_id = 20;
  hypotheses = claimed ∷ refined ∷ [];
  assessments = record { target_id = 1; confidence = 700; rationale = "" } ∷ [];
  sources = source 10 (codes "https://www.a.org/x") ∷ source 11 (codes "https://b.org/y") ∷ [];
  evidence = evidence 12 10 ∷ evidence 13 11 ∷ [];
  evidence_links = support 12 ∷ support 13 ∷ [];
  relationships =
      record { id = 14; subject_id = 1; predicate = refines; object_id = 2; retracted = false }
      ∷ [];
}

abbrev db : Db
db = record { memory = memory; queue = no_jobs }

found : hypothesis 1 memory ≡ some claimed
unfolding hypothesis
found = refl

runs : persist 50 60 1 accept 0 db ≡ some (apply_rules 50 60 1 accept 0 claimed db)
unfolding persist hypothesis
runs = refl

comes_out_accepted : status_of 1 (apply_rules 50 60 1 accept 0 claimed db).0.memory ≡ some accepted
unfolding apply_rules decide settle_open write_status finish supersede_all supersede hypothesis
    current_confidence sites_of critiques_of supporting_source_uris is_supporting uri_of_link
    distinct site hostname refined_hypotheses set_hypothesis_status reads_moltbook node_domain_ids
comes_out_accepted = refl

-- The one that it refines is superseded.
refined_superseded :
    status_of 2 (apply_rules 50 60 1 accept 0 claimed db).0.memory ≡ some superseded
unfolding apply_rules decide settle_open write_status finish supersede_all supersede hypothesis
    current_confidence sites_of critiques_of supporting_source_uris is_supporting uri_of_link
    distinct site hostname refined_hypotheses set_hypothesis_status reads_moltbook node_domain_ids
refined_superseded = refl

decide-accepted_iff_example :
    (decide accept (some 700) 2 [] ≡ accepted)
    ↔ ((c : ℕ) × (some 700 ≡ some c) × Deserves accept c 2 [])
decide-accepted_iff_example = decide-accepted_iff accept (some 700) 2 []

persist-accepted_example :
    (c : ℕ) × (current_confidence 1 memory ≡ some c)
    × Deserves accept c (length (sites_of 1 memory)) (critiques_of 1 memory)
    × TwoSites (supporting_source_uris 1 memory)
persist-accepted_example =
    persist-accepted 50 60 1 accept 0 db (apply_rules 50 60 1 accept 0 claimed db).0
      (apply_rules 50 60 1 accept 0 claimed db).1 claimed found refl runs comes_out_accepted

persist-consistent_example : Holds AreConsistent (persist 50 60 1 accept 0 db)
persist-consistent_example =
    persist-consistent 50 60 1 accept 0 db (inr ((λ e. cc), refl), (inr ((λ e. cc), refl), tt))

persist-Follows_example :
    Holds (λ db'. Adds (IsFollowUp 1 0) db.queue db'.queue) (persist 50 60 1 accept 0 db)
persist-Follows_example = persist-Follows 50 60 1 accept 0 db
