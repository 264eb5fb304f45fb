-- ===== src/Core/Enrichment.antt =====
-- The `AskUserQuestion` enrichment of packages/core/src/index.ts: the questions that a worker's
-- `input_request` frame carries, taken from untrusted JSON.
pub mod Shape
pub mod Ids
use ccctl.Base.{
  ℕ, zero, suc, ◌+◌, ◌/◌, ◌%◌, String, Char, code, Bool, true, false, ◌||◌, ◌&&◌, List, [], ◌∷◌,
  Option, none, some, ltb, leb, ◌==◌, str_eq, if◌then◌else◌, length, any,
}
use ccctl.Base.Texts.{within}
use ccctl.Base.Dict.{Dict, get}
use ccctl.Core.Json.{Json, bool, str, obj, as_object, as_array, object_at, guard, ◌>>=◌, ◌>>◌}
use ccctl.Core.Detail.{displayable_detail, max_requires_action_detail_length}
use ccctl.Core.Frame.{ControlFrame}
use ccctl.Core.Session.{is_text, as_worker_status_sequence}

abbrev pub max_enrichment_questions : ℕ
max_enrichment_questions = 16

abbrev pub max_enrichment_options : ℕ
max_enrichment_options = 32

abbrev pub max_enrichment_text_length : ℕ
max_enrichment_text_length = max_requires_action_detail_length

pub record EnrichmentOption : Type 0 where
  pub label : String
  pub description : Option String

pub record EnrichmentQuestion : Type 0 where
  pub question_id : String
  pub prompt : String
  pub header : Option String
  pub options : List EnrichmentOption
  pub multi_select : Bool

pub record RequiresActionEnrichment : Type 0 where
  pub sequence_num : ℕ
  pub questions : List EnrichmentQuestion

-- The decimal numeral of a number, as a template string prints it.
abbrev digit : ℕ → Char
digit d =
    if d == 0
    then "0"
    else if d == 1
    then "1"
    else if d == 2
    then "2"
    else if d == 3
    then "3"
    else if d == 4
    then "4"
    else if d == 5
    then "5"
    else if d == 6
    then "6"
    else if d == 7
    then "7"
    else if d == 8
    then "8"
    else "9"

decimal_from : ℕ → ℕ → String → String
decimal_from zero n done = done
decimal_from (suc fuel) n done =
    let more = decimal_from fuel (n / 10) (String.◌∷◌ (digit (n % 10)) done) in
    if ltb n 10 then String.◌∷◌ (digit n) done else more

-- A number has at most as many digits as its successor is large.
unfoldable pub decimal : ℕ → String
unfolding decimal_from
decimal n = decimal_from (suc n) n ""

unfoldable pub enrichment_question_id : ℕ → String
unfolding decimal
enrichment_question_id index = String.◌∷◌ "q" (decimal index)

abbrev pub all_digits : String → Bool
all_digits String.[] = true
all_digits (String.◌∷◌ c s) = within b'0' b'9' (code c) && all_digits s

abbrev is_numeral : String → Bool
is_numeral String.[] = false
is_numeral (String.◌∷◌ c s) =
    (code c == b'0' && str_eq s "") || (within b'1' b'9' (code c) && all_digits s)

-- `/^q(?:0|[1-9][0-9]*)$/`
unfoldable pub is_enrichment_question_id : String → Bool
is_enrichment_question_id String.[] = false
is_enrichment_question_id (String.◌∷◌ c s) = code c == b'q' && is_numeral s

unfoldable pub enrichment_text : Option Json → Option String
enrichment_text value = displayable_detail value max_enrichment_text_length

unfoldable pub enrichment_option_from_value : Json → Option EnrichmentOption
enrichment_option_from_value value = do
  o ← as_object value
  label ← enrichment_text (get "label" o)
  some (record { label = label; description = enrichment_text (get "description" o) })

-- The loop over the options, with the labels seen so far.
unfoldable pub options_from : List String → List Json → Option (List EnrichmentOption)
options_from seen [] = some []
options_from seen (v ∷ vs) = do
  next ← enrichment_option_from_value v
  guard (if any (str_eq next.label) seen then false else true)
  rest ← options_from (next.label ∷ seen) vs
  some (next ∷ rest)

abbrev select_mode : Option Json → Option Bool
select_mode none = some false
select_mode (some (bool b)) = some b
select_mode (some (obj _)) = none
select_mode (some _) = none

-- `n` is neither 0 nor above the bound.
abbrev pub is_count : ℕ → ℕ → Bool
is_count n bound = ltb 0 n && leb n bound

unfoldable pub enrichment_question_from_value : Json → ℕ → Option EnrichmentQuestion
enrichment_question_from_value value index = do
  o ← as_object value
  prompt ← enrichment_text (get "question" o)
  multi ← select_mode (get "multiSelect" o)
  offered ← as_array (get "options" o)
  guard (is_count (length offered) max_enrichment_options)
  parsed ← options_from [] offered
  some (record {
    question_id = enrichment_question_id index;
    prompt = prompt;
    header = enrichment_text (get "header" o);
    options = parsed;
    multi_select = multi;
  })

unfoldable pub questions_from : ℕ → List Json → Option (List EnrichmentQuestion)
questions_from index [] = some []
questions_from index (v ∷ vs) = do
  next ← enrichment_question_from_value v index
  rest ← questions_from (index + 1) vs
  some (next ∷ rest)

unfoldable pub requires_action_enrichment_from_value : Json → Option RequiresActionEnrichment
requires_action_enrichment_from_value value = do
  o ← as_object value
  sequence_num ← as_worker_status_sequence (get "sequence_num" o)
  asked ← as_array (get "questions" o)
  guard (is_count (length asked) max_enrichment_questions)
  parsed ← questions_from 0 asked
  some (record { sequence_num = sequence_num; questions = parsed })

unfoldable pub is_input_request_event : ControlFrame → Bool
is_input_request_event frame =
    is_text (get "type" frame) "control_event" && is_text (get "subtype" frame) "input_request"

-- A frame with no payload is refused, as its `undefined` payload is no object.
unfoldable pub requires_action_enrichment_from_frame :
    ControlFrame → Option RequiresActionEnrichment
unfolding is_input_request_event
requires_action_enrichment_from_frame frame =
    if is_input_request_event frame
    then get "payload" frame >>= requires_action_enrichment_from_value
    else none
