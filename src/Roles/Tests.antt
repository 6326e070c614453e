-- ===== src/Roles/Tests.antt =====
-- The research roles on a small example: one document that quotes, one that does not, and a
-- hypothesis under review.
use collegium.Prelude.{false, ◌≡◌, ◌≤◌, refl, none, some, List, [], ◌∷◌, All, arith, Memᴰ}
use collegium.Text.{codes, strip, text_eq}
use collegium.Acquisition.{Document}
use collegium.Grounding.{normalize, locate_excerpt, original, find_longest_match}
use collegium.Jobs.{JobRow, review, record_verdict, accept, enqueue, new_row, no_payload}
use collegium.Jobs.Attempts.{no_jobs}
use collegium.Memory.{
  Memory, no_memory, Hypothesis, under_review, Critique, open_, upheld, supports, contradicts,
  hypothesis_node, critique_node, hypothesis, node_domain_ids, critiques_of, sql_key, statement_key,
}
use collegium.Db.{Db, Adds, enqueue_job}
use collegium.Roles.{
  BearsOn, EvidenceItem, GroundedEvidence, Grounding, ground_evidence, cited_first, first_found,
  found, no_grounding, store_evidence, Targets, Linking, link_stances, label_of,
}
use collegium.Roles.Labels.{labelled, decimal}
use collegium.Roles.Skeptic.{
  ProposedCritique, SkepticReview, write_review, prepare_review, persist_review, without_label,
}
use collegium.Roles.Citing.{first_found-cited, IsSplit, ground_evidence-IsSplit}
use collegium.Roles.Supporting.{AllSupported, store_evidence-AllSupported}
use collegium.Roles.Links.{LinksOnce, IsLinked, link_stances-once}
use collegium.Roles.Reviewing.{IsReviewed, write_review-IsReviewed}
use collegium.Roles.Researcher.{ProposedHypothesis, persist_research}
use collegium.Roles.Claims.{HoldsOnce}
use collegium.Roles.Proposals.{Agrees, persist_research-HoldsOnce}
use collegium.Roles.Loop.{Answers, perform, perform_as}
use collegium.Roles.Ranks.{IsBelow, rank}
use collegium.Roles.Rounds.{StartedBy, ends, goes_on, perform-IsBelow, Line-ends}

abbrev other_page : Document
other_page = record {
  url = codes "https://example.org/b";
  title = codes "Weather";
  content = codes "Rain all week.";
  signals = [];
}

abbrev page : Document
page = record {
  url = codes "https://example.org/a";
  title = codes "Schools";
  content = codes "Council opens one school.";
  signals = [];
}

-- It cites the wrong document.
abbrev quote : EvidenceItem
quote = record {
  document = 1;
  excerpt = codes "council opens one school";
  summary = codes "A school opens.";
  reliability = 800;
  bears_on = record { hypothesis = codes " h"; stance = supports } ∷ [];
}

abbrev invented : EvidenceItem
invented = record quote { excerpt = codes "council closes three schools" }

abbrev kept : GroundedEvidence
kept = record { item = quote; document = page; excerpt = codes "Council opens one school" }

abbrev grounding : Grounding
grounding = record { grounded = kept ∷ []; dropped = codes "council closes three schools" ∷ [] }

grounds : ground_evidence (quote ∷ invented ∷ []) (other_page ∷ page ∷ []) ≡ some grounding
unfolding ground_evidence cited_first locate_excerpt normalize original strip find_longest_match
grounds = refl

first_found-cited_example :
    first_found quote.excerpt (cited_first 2 (other_page ∷ page ∷ []))
    ≡ found page (codes "Council opens one school")
unfolding locate_excerpt normalize original strip
first_found-cited_example =
    first_found-cited quote.excerpt (codes "Council opens one school") (other_page ∷ page ∷ []) 1
      page refl refl

ground_evidence-IsSplit_example :
    IsSplit (other_page ∷ page ∷ []) (quote ∷ invented ∷ []) no_grounding grounding
ground_evidence-IsSplit_example =
    ground_evidence-IsSplit (quote ∷ invented ∷ []) (other_page ∷ page ∷ []) grounding grounds

abbrev targets : Targets
targets = (codes "H", 1, hypothesis_node) ∷ (codes "C1", 2, critique_node) ∷ []

-- A page that was found before, with the row of its source, which has no content or reliability.
abbrev with_observation : Memory
with_observation = record no_memory {
  next_id = 21;
  sources =
      record { id = 19; uri = codes "https://b.org"; title = none; content = none; author = none }
      ∷ [];
  evidence =
      record {
        id = 20;
        summary = codes "snippet";
        excerpt = codes "snippet";
        source_id = some 19;
        reliability = none;
      }
      ∷ [];
}

store_evidence-AllSupported_example :
    AllSupported with_observation.evidence
      (store_evidence grounding.grounded targets (9 ∷ []) with_observation).1
store_evidence-AllSupported_example =
    store_evidence-AllSupported (quote ∷ invented ∷ []) (other_page ∷ page ∷ []) grounding targets
      (9 ∷ []) with_observation grounds

-- Twice on the hypothesis, in either case, and once on the critique.
abbrev bearings : List BearsOn
bearings =
    record { hypothesis = codes "H"; stance = supports }
    ∷ record { hypothesis = codes "h "; stance = contradicts }
    ∷ record { hypothesis = codes "c1"; stance = contradicts }
    ∷ []

abbrev unlinked : Linking
unlinked = record { linked = []; touched = []; memory = no_memory }

links_each_once : (link_stances 5 targets bearings unlinked).linked ≡ 1 ∷ 2 ∷ []
unfolding label_of strip
links_each_once = refl

link_stances-once_example :
    LinksOnce 5 no_memory (link_stances 5 targets bearings unlinked)
    × All (IsLinked targets (link_stances 5 targets bearings unlinked).linked) bearings
link_stances-once_example = link_stances-once 5 targets bearings unlinked refl

abbrev claimed : Hypothesis
claimed = record {
  id = 1;
  statement = codes "A school opens.";
  rationale = none;
  status = under_review;
  superseded_by = none;
}

abbrev objection : Critique
objection = record {
  id = 2;
  target_id = 1;
  argument = codes "Only one source.";
  alternative_explanation = none;
  severity = 3;
  status = open_;
  resolution = none;
}

abbrev memory : Memory
memory = record no_memory {
  next_id = 10;
  node_domains = (1, 9) ∷ [];
  hypotheses = claimed ∷ [];
  critiques = objection ∷ record objection { id = 3 } ∷ [];
}

abbrev doubt : ProposedCritique
doubt = record {
  argument = codes "[C1] It may be delayed.";
  alternative_explanation = none;
  severity = 9;
}

abbrev answer : SkepticReview
answer = record {
  resolutions = record { critique = codes "c1"; status = upheld; resolution = "It stands." } ∷ [];
  critiques = doubt ∷ doubt ∷ [];
  evidence = [];
  confidence = 500;
  confidence_rationale = "One source.";
  verdict = accept;
}

strips_label : without_label doubt.argument ≡ codes "It may be delayed."
strips_label = refl

labels_ten : decimal 10 ≡ codes "10"
unfolding decimal
labels_ten = refl

write_review-IsReviewed_example :
    IsReviewed 1 1
      (2 ∷ [])
      memory.critiques
      (write_review 1 1 ((codes "C1", 2) ∷ []) answer [] [] memory).critiques
write_review-IsReviewed_example =
    write_review-IsReviewed 1 1 ((codes "C1", 2) ∷ []) answer [] [] memory (ground arith)

-- The held claim, in other words and twice.
abbrev proposal : ProposedHypothesis
proposal = record {
  label = codes "H1";
  statement = codes "A  school opens";
  rationale = [];
  falsified_if = [];
  refines = none;
  confidence = 400;
}

abbrev database : Db
database = record { memory = memory; queue = no_jobs }

database-HoldsOnce : HoldsOnce memory.locale (9 ∷ []) memory
database-HoldsOnce = record { located = refl; once = (tt, tt); numbered = (ground arith, tt) }

agrees : Agrees memory.locale proposal
unfolding sql_key statement_key
agrees = refl

-- A leading tab is kept as a space by the database's key, and dropped by Python's.
tab_differs :
    text_eq (sql_key memory.locale (9 ∷ codes "A school")) (statement_key (9 ∷ codes "A school"))
    ≡ false
unfolding sql_key statement_key
tab_differs = refl

persist_research-HoldsOnce_example :
    HoldsOnce memory.locale
      (9 ∷ [])
      (persist_research 0 4 6 (9 ∷ []) [] (proposal ∷ proposal ∷ []) (kept ∷ []) database).memory
persist_research-HoldsOnce_example =
    persist_research-HoldsOnce 0 4 6 (9 ∷ []) [] (proposal ∷ proposal ∷ []) (kept ∷ []) database
      ((agrees, (agrees, tt))) database-HoldsOnce

abbrev review_job : JobRow
review_job = new_row 0 review (record no_payload { hypothesis_id = some 1 }) none 3 4

abbrev answers : Answers
answers = record {
  documents = [];
  evidence = [];
  review = answer;
  findings = record { hypotheses = []; evidence = [] };
  entities = [];
}

abbrev reviewed : Db
reviewed =
    persist_review 7 4 1 0 (labelled (codes "C") (2 ∷ 3 ∷ [])) answer [] (node_domain_ids 1 memory)
      database

performs : perform 7 review_job answers memory database ≡ some reviewed
unfolding perform_as prepare_review ground_evidence hypothesis critiques_of
performs = refl

perform-IsBelow_example : Adds (IsBelow (rank review_job)) database.queue reviewed.queue
perform-IsBelow_example = perform-IsBelow 7 review_job answers memory database reviewed performs

abbrev record_job : JobRow
record_job =
    new_row 7 record_verdict
      (record no_payload { hypothesis_id = some 1; verdict = some accept; round = some 0 }) (some 4)
      3 0

starts_record : StartedBy review_job record_job
unfolding persist_review enqueue_job enqueue
starts_record = record {
  now = 7;
  answers = answers;
  read = memory;
  db = database;
  db' = reviewed;
  performed = performs;
  added = record_job ∷ [];
  grown = refl;
  listed = Memᴰ.head refl;
}

Line-ends_example : 2 ≤ 11
Line-ends_example =
    Line-ends 2 review_job (goes_on review_job record_job starts_record (ends record_job))
