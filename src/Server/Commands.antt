-- ===== src/Server/Commands.antt =====
-- packages/server/src/ui-command.ts: a command of the UI, checked and relayed to the worker of its session. The
-- body, read and parsed, is an argument.
pub mod Once
use ccctl.Base.{
  ℕ, ◌+◌, String, Bool, true, false, not, ◌&&◌, List, [], ◌∷◌, Option, none, some, str_eq,
  if◌then◌else◌,
}
use ccctl.Base.Dict.{Dict, get, has}
use ccctl.Base.Texts.{trim}
use ccctl.Core.Json.{
  Json, Fields, Items, entries, null, str, obj, arr, nil, cons, field, end, as_object, as_string,
}
use ccctl.Core.Session.{as_worker_status_sequence}
use ccctl.Core.Answer.{
  AnswerEnvelope, AnswerValidation, accepted, rejected, answer_envelope_from_value,
  validate_answer_against_enrichment,
}
use ccctl.Server.Worker.{Environment, WorkerChannelState}
use ccctl.Server.Worker.Handlers.{Reply, error, json, consume_input_request_enrichment}
use ccctl.Server.Worker.Status.{inject_user_turn, dispatch_control_request}

-- The payload is an object.
pub record UiCommand : Type 0 where
  pub subtype : String
  pub payload : Option Fields

unfoldable pub parse_ui_command : Json → Option UiCommand
parse_ui_command (obj o) = elim (get "subtype" (entries o)) [
  | some (str subtype) ↦ if str_eq subtype "" then none else elim (get "payload" (entries o)) [
    | none ↦ some (record { subtype = subtype; payload = none })
    | some (obj payload) ↦ some (record { subtype = subtype; payload = some payload })
    | some _ ↦ none
  ]
  | none ↦ none
  | some _ ↦ none
]
parse_ui_command null = none
parse_ui_command _ = none

abbrev pub payload_at : String → Option Fields → Option Json
payload_at key none = none
payload_at key (some payload) = get key (entries payload)

abbrev pub envelope_of : Option Fields → Option AnswerEnvelope
envelope_of none = none
envelope_of (some payload) = answer_envelope_from_value (obj payload)

abbrev pub is_blank : Option Json → Bool
is_blank text = elim (as_string text) [ none ↦ true | some s ↦ str_eq (trim s) "" ]

abbrev pub sequence_of : Option Fields → Option ℕ
sequence_of payload = as_worker_status_sequence (payload_at "sequence_num" payload)

abbrev pub verdict_status : AnswerValidation → Option ℕ
verdict_status accepted = none
verdict_status (rejected reason) = some 409

-- The status of the error, if there is one.
unfoldable pub answer_rejection : WorkerChannelState → String → Option Fields → Option ℕ
answer_rejection s id payload = elim (envelope_of payload) [
  | none ↦ some 400
  | some envelope ↦ elim (get id s.hub.requires_action_enrichments) [
    | none ↦ some 409
    | some enrichment ↦
        verdict_status
          (validate_answer_against_enrichment enrichment envelope (sequence_of payload))
  ]
]

abbrev pub label_items : List String → Items
label_items [] = nil
label_items (label ∷ more) = cons (str label) (label_items more)

abbrev pub answer_fields : Dict (List String) → Fields
answer_fields [] = end
answer_fields ((question_id, labels) ∷ more) =
    field question_id (arr (label_items labels)) (answer_fields more)

-- `{ ...answer }`
abbrev pub answer_json : AnswerEnvelope → Json
answer_json envelope = obj (field "answers" (obj (answer_fields envelope.answers)) end)

abbrev pub control_request : String → String → Option Json → Json
control_request id subtype payload = obj (
    field "type" (str "control_request") (
      field "id" (str id) (
        field "subtype" (str subtype)
          (elim payload [ none ↦ end | some p ↦ field "payload" p end ]))))

module _ (env : Environment) where
  -- `none` is the error that no worker is there.
  unfoldable pub relay_command :
      WorkerChannelState → String → String → UiCommand → Option WorkerChannelState
  unfolding inject_user_turn
  relay_command s session_id id command =
      if str_eq command.subtype "prompt"
      then inject_user_turn env s session_id
          (elim (as_string (payload_at "text" command.payload)) [ none ↦ "" | some text ↦ text ])
      else if str_eq command.subtype "answer"
      then elim (envelope_of command.payload) [
        | none ↦ some s
        | some answer ↦
            dispatch_control_request env s session_id
              (control_request id "answer" (some (answer_json answer)))
      ]
      else dispatch_control_request env s session_id (
          control_request id command.subtype
            (elim command.payload [ none ↦ none | some p ↦ some (obj p) ]))

  -- A command that has passed its checks.
  unfoldable pub accept_command :
      WorkerChannelState → String → UiCommand → Reply × WorkerChannelState
  unfolding relay_command
  accept_command s session_id command =
      let id = env.uuid s.uuids in
      let minted = record s { uuids = s.uuids + 1 } in
      elim (relay_command minted session_id id command) [
        | none ↦ (error 409, minted)
        | some relayed ↦ (
          json (obj (field "id" (str id) end)),
          if str_eq command.subtype "answer"
              then consume_input_request_enrichment relayed session_id
              else relayed,
        )
      ]

  unfoldable pub run_command : WorkerChannelState → String → UiCommand → Reply × WorkerChannelState
  unfolding answer_rejection accept_command
  run_command s session_id command =
      if not (has session_id s.hub.sessions)
      then (error 404, s)
      else if str_eq command.subtype "prompt" && is_blank (payload_at "text" command.payload)
      then (error 400, s)
      else let rejection : Option ℕ =
          if str_eq command.subtype "answer"
          then answer_rejection s session_id command.payload
          else none in
        elim rejection [
          | some status ↦ (error status, s)
          | none ↦ accept_command s session_id command
        ]

-- The body of a request: too large, no JSON, or a value.
pub data CommandBody : Type 0 where
  too_large malformed : CommandBody
  parsed : Json → CommandBody

unfoldable pub handle_ui_command :
    Environment → String → WorkerChannelState → String → CommandBody → Reply × WorkerChannelState
unfolding parse_ui_command run_command
handle_ui_command env method s session_id body =
    if not (str_eq method "POST") then (error 405, s) else elim body [
      | too_large ↦ (error 413, s)
      | malformed ↦ (error 400, s)
      | parsed value ↦ elim (parse_ui_command value) [
        | none ↦ (error 400, s)
        | some command ↦ run_command env s session_id command
      ]
    ]
