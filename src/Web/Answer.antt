-- ===== src/Web/Answer.antt =====
-- packages/web-ui/src/enrichment.js and command.js: the selections of the operator made into an answer, and the answer
-- into the body of a command.
pub mod Selected
pub mod Sent
use ccctl.Base.{
  ℕ, String, Bool, ◌||◌, ◌&&◌, not, List, [], ◌∷◌, Option, none, some, length, any, every, leb,
  ◌==◌, str_eq,
}
use ccctl.Base.Dict.{Dict, get, set}
use ccctl.Base.Texts.{trim}
use ccctl.Core.Json.{
  Json, Fields, num, nonneg, str, obj, field, end, as_object, as_array, as_string, guard, ◌>>=◌,
  ◌>>◌, max_safe_integer,
}
use ccctl.Core.Enrichment.{EnrichmentQuestion, RequiresActionEnrichment}
use ccctl.Core.Answer.{labels}
use ccctl.Server.Commands.{answer_fields}

-- The loop over the labels of one selection, with those seen so far.
unfoldable pub pick : List String → List String → List Json → Option (List String)
pick offered seen [] = some []
pick offered seen (v ∷ vs) = do
  label ← as_string (some v)
  guard (any (str_eq label) offered)
  guard (not (any (str_eq label) seen))
  rest ← pick offered (label ∷ seen) vs
  some (label ∷ rest)

unfoldable pub select_question : EnrichmentQuestion → Dict Json → Option (List String)
unfolding pick
select_question q selections = do
  chosen ← as_array (get q.question_id selections)
  guard (not (length chosen == 0))
  guard (q.multi_select || length chosen == 1)
  pick (labels q) [] chosen

unfoldable pub select_all :
    List EnrichmentQuestion → Dict Json → Dict (List String) → Option (Dict (List String))
unfolding select_question
select_all [] selections answers = some answers
select_all (q ∷ qs) selections answers = do
  chosen ← select_question q selections
  select_all qs selections (set q.question_id chosen answers)

unfoldable pub answer_from_selections :
    RequiresActionEnrichment → Json → Option (Dict (List String))
unfolding select_all
answer_from_selections enrichment selections = do
  o ← as_object selections
  select_all enrichment.questions o []

abbrev pub is_selection : String × List String → Bool
is_selection a = not (length a.1 == 0) && every (λ label. not (str_eq (trim label) "")) a.1

abbrev pub answer_payload : ℕ → Dict (List String) → Fields
answer_payload sequence_num answers =
    field "answers" (obj (answer_fields answers))
      (field "sequence_num" (num (nonneg sequence_num)) end)

abbrev pub answer_body : ℕ → Dict (List String) → Json
answer_body sequence_num answers = obj (
    field "subtype" (str "answer")
      (field "payload" (obj (answer_payload sequence_num answers)) end))

unfoldable pub answer_command : ℕ → Dict (List String) → Option Json
answer_command sequence_num answers = do
  guard (leb sequence_num max_safe_integer)
  guard (not (length answers == 0))
  guard (every is_selection answers)
  some (answer_body sequence_num answers)
