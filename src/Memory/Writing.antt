-- ===== src/Memory/Writing.antt =====
-- The writes of src/collegium/memory.py that the modelled components make. Each returns the new
-- memory, an insert the new row's id before it.
use collegium.Prelude.{
  ℕ, suc, Option, none, some, [], ◌∷◌, ◌++◌, ◌==◌, min, max, String, update_where,
}
use collegium.Text.{Text}
use collegium.Memory.Tables.{HypothesisStatus, Hypothesis, CritiqueStatus, Critique, open_, Memory}

abbrev pub restate : HypothesisStatus → Option ℕ → Hypothesis → Hypothesis
restate status by h = record h { status = status; superseded_by = by }

unfoldable pub set_hypothesis_status : ℕ → HypothesisStatus → Option ℕ → Memory → Memory
set_hypothesis_status hypothesis_id status superseded_by m = record m {
  hypotheses =
      update_where (λ h. h.id == hypothesis_id) (restate status superseded_by) m.hypotheses;
}

abbrev pub settle : CritiqueStatus → String → Critique → Critique
settle status resolution c = record c { status = status; resolution = some resolution }

unfoldable pub set_critique_status : ℕ → CritiqueStatus → String → Memory → Memory
set_critique_status critique_id status resolution m = record m {
  critiques = update_where (λ c. c.id == critique_id) (settle status resolution) m.critiques;
}

-- min(5, max(1, severity))
unfoldable pub add_critique : ℕ → Text → Option String → ℕ → Memory → ℕ × Memory
add_critique target_id argument alternative_explanation severity m = (
  m.next_id,
  record m {
    next_id = suc m.next_id;
    critiques =
        m.critiques
        ++ record {
          id = m.next_id;
          target_id = target_id;
          argument = argument;
          alternative_explanation = alternative_explanation;
          severity = min 5 (max 1 severity);
          status = open_;
          resolution = none;
        }
          ∷ [];
  },
)

-- `_unit` rounds to thousandths; the value is given in thousandths already, and capped at one.
unfoldable pub assess_confidence : ℕ → ℕ → String → Memory → Memory
assess_confidence target_id confidence rationale m = record m {
  assessments =
      record { target_id = target_id; confidence = min 1000 confidence; rationale = rationale }
      ∷ m.assessments;
}
