-- ===== src/Core/Tests/Questions.antt =====
-- The theorems on the enrichments and answers of packages/core/src/index.ts, at concrete inputs.
use mathlib.Core.List.{Mem, Memᴰ, Nodup-nil, Nodup-cons, not-mem-nil}
use ccctl.Base.{ℕ, ◌≡◌, ◌↔◌, refl, String, false, List, [], ◌∷◌, Option, none, some, All}
use ccctl.Base.Dict.{get, set}
use ccctl.Core.Json.{Json, num, nonneg, str, arr, obj, nil, cons, end, field}
use ccctl.Core.Detail.{displayable_text, displayable_detail, flatten, truncate}
use ccctl.Core.Session.{as_worker_status_sequence}
use ccctl.Core.Enrichment.{
  EnrichmentOption, EnrichmentQuestion, RequiresActionEnrichment,
  requires_action_enrichment_from_value, questions_from, options_from,
  enrichment_question_from_value, enrichment_option_from_value, enrichment_text,
  enrichment_question_id,
}
use ccctl.Core.Enrichment.Shape.{IsWellFormed, enrichment_from_value-IsWellFormed}
use ccctl.Core.Answer.{
  answer_envelope_from_value, accepted, rejected, unoffered_label, check_question,
  validate_answer_against_enrichment,
}
use ccctl.Core.Answer.Accepted.{Fits, validate_answer_iff}
use ccctl.Core.Answer.Offered.{choice, choice-accepted}

shown : Unit {0}
unfolding displayable_text displayable_detail flatten truncate
shown = tt

abbrev asked_value : Json
asked_value = obj (
    field "sequence_num" (num (nonneg 4)) (
      field "questions"
        (arr (
          cons
            (obj (
              field "question" (str "Which?") (
                field "options"
                  (arr (
                    cons (obj (field "label" (str "red") end))
                      (cons (obj (field "label" (str "blue") end)) nil)))
                  end)))
            nil))
        end))

abbrev pub red : EnrichmentOption
red = record { label = "red"; description = none }

abbrev pub blue : EnrichmentOption
blue = record { label = "blue"; description = none }

abbrev pub which : EnrichmentQuestion
which = record {
  question_id = "q0";
  prompt = "Which?";
  header = none;
  options = red ∷ blue ∷ [];
  multi_select = false;
}

abbrev pub asked : RequiresActionEnrichment
asked = record { sequence_num = 4; questions = which ∷ [] }

asked_parsed : requires_action_enrichment_from_value asked_value ≡ some asked
unfolding requires_action_enrichment_from_value questions_from options_from
    enrichment_question_from_value enrichment_option_from_value enrichment_text
    enrichment_question_id as_worker_status_sequence get shown
asked_parsed = refl

pub asked-IsWellFormed : IsWellFormed asked
asked-IsWellFormed = enrichment_from_value-IsWellFormed asked_value asked asked_parsed

enrichment_from_value-IsWellFormed_example : IsWellFormed asked
enrichment_from_value-IsWellFormed_example =
    enrichment_from_value-IsWellFormed asked_value asked asked_parsed

validate_answer_iff_example :
    (validate_answer_against_enrichment asked
        (record { answers = ("q0", "red" ∷ []) ∷ [] })
        (some 4)
      ≡ accepted)
    ↔ ((◌≡◌ {A = Option ℕ} (some 4) (some 4))
        × All {A = String × List String}
            (λ a.
              (q : EnrichmentQuestion) × Mem q asked.questions × (q.question_id ≡ a.0) × Fits q a.1)
            (("q0", "red" ∷ []) ∷ []))
validate_answer_iff_example =
    validate_answer_iff asked (record { answers = ("q0", "red" ∷ []) ∷ [] }) (some 4)
      (Nodup-cons.1 (not-mem-nil, Nodup-nil))

not_offered :
    validate_answer_against_enrichment asked
      (record { answers = ("q0", "green" ∷ []) ∷ [] })
      (some 4)
    ≡ rejected unoffered_label
unfolding validate_answer_against_enrichment get set check_question
not_offered = refl

choice-accepted_example :
    (answer_envelope_from_value (choice "q0" "blue")
      ≡ some (record { answers = ("q0", "blue" ∷ []) ∷ [] }))
    × (validate_answer_against_enrichment asked
          (record { answers = ("q0", "blue" ∷ []) ∷ [] })
          (some 4)
        ≡ accepted)
choice-accepted_example =
    choice-accepted asked which blue asked-IsWellFormed (Memᴰ.head refl)
      (Memᴰ.tail (Memᴰ.head refl))
