-- ===== src/Core/Answer.antt =====
-- Answers to an `AskUserQuestion` in packages/core/src/index.ts: the envelope that a client submits,
-- and its check against the questions that are outstanding.
pub mod Accepted
pub mod Offered
use ccctl.Base.{
  ℕ, zero, suc, ◌+◌, String, Bool, true, false, ◌||◌, ◌&&◌, not, List, [], ◌∷◌, map, Option, none,
  some, ltb, leb, ◌==◌, str_eq, if◌then◌else◌, length, any,
}
use ccctl.Base.Dict.{Dict, get, set}
use ccctl.Core.Json.{Json, as_object, as_array, object_at, guard, ◌>>=◌, ◌>>◌}
use ccctl.Core.Enrichment.{
  EnrichmentOption, EnrichmentQuestion, RequiresActionEnrichment, enrichment_text,
  is_enrichment_question_id, is_count, max_enrichment_questions, max_enrichment_options,
}

-- Each question that is answered, with the labels chosen, in the order of the JSON object.
pub record AnswerEnvelope : Type 0 where
  pub answers : Dict (List String)

unfoldable pub labels_from : List Json → Option (List String)
labels_from [] = some []
labels_from (v ∷ vs) = do
  label ← enrichment_text (some v)
  rest ← labels_from vs
  some (label ∷ rest)

unfoldable pub selections_from : Dict Json → Option (Dict (List String))
selections_from [] = some []
selections_from ((question_id, selection) ∷ more) = do
  guard (is_enrichment_question_id question_id)
  chosen ← as_array (some selection)
  guard (is_count (length chosen) max_enrichment_options)
  labels ← labels_from chosen
  rest ← selections_from more
  some ((question_id, labels) ∷ rest)

unfoldable pub answer_envelope_from_value : Json → Option AnswerEnvelope
answer_envelope_from_value value = do
  o ← as_object value
  given ← object_at "answers" o
  guard (is_count (length given) max_enrichment_questions)
  parsed ← selections_from given
  some (record { answers = parsed })

pub data AnswerRejection : Type 0 where
  stale_decision unknown_question unoffered_label cardinality : AnswerRejection

pub data AnswerValidation : Type 0 where
  accepted : AnswerValidation
  rejected : AnswerRejection → AnswerValidation

-- `new Map(questions.map((question) => [question.questionId, question]))`
unfoldable pub by_id : List EnrichmentQuestion → Dict EnrichmentQuestion → Dict EnrichmentQuestion
by_id [] m = m
by_id (q ∷ qs) m = by_id qs (set q.question_id q m)

abbrev pub labels : EnrichmentQuestion → List String
labels q = map (λ o. o.label) q.options

-- The loop over the labels of one selection, with those chosen so far.
unfoldable pub check_labels : List String → List String → List String → AnswerValidation
check_labels offered chosen [] = accepted
check_labels offered chosen (label ∷ rest) =
    if not (any (str_eq label) offered)
    then rejected unoffered_label
    else if any (str_eq label) chosen
    then rejected cardinality
    else check_labels offered (label ∷ chosen) rest

unfoldable pub check_question : EnrichmentQuestion → List String → AnswerValidation
check_question q selection =
    if not q.multi_select && not (length selection == 1)
    then rejected cardinality
    else check_labels (labels q) [] selection

unfoldable pub check_answers : Dict EnrichmentQuestion → Dict (List String) → AnswerValidation
check_answers asked [] = accepted
check_answers asked ((question_id, selection) ∷ more) =
    let later = check_answers asked more in
    elim (get question_id asked) [
      | none ↦ rejected unknown_question
      | some q ↦ elim (check_question q selection) [
        | accepted ↦ later
        | rejected reason ↦ rejected reason
      ]
    ]

abbrev is_current : Option ℕ → ℕ → Bool
is_current none n = false
is_current (some m) n = m == n

unfoldable pub validate_answer_against_enrichment :
    RequiresActionEnrichment → AnswerEnvelope → Option ℕ → AnswerValidation
unfolding check_answers check_labels by_id
validate_answer_against_enrichment enrichment envelope submitted =
    if is_current submitted enrichment.sequence_num
    then check_answers (by_id enrichment.questions []) envelope.answers
    else rejected stale_decision
