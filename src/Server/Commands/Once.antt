-- ===== src/Server/Commands/Once.antt =====
-- An answer of packages/server/src/ui-command.ts is relayed only to the decision that it fits, and once.
use ccctl.Base.{
  ◌+◌, ◌≡◌, refl, ap, subst, inl, inr, String, true, false, Option, none, some, str_eq, eq_iff,
  Bool-cases, Option-cases,
}
use ccctl.Base.Dict.{get, has, get-delete_self}
use ccctl.Core.Json.{Json, Fields}
use ccctl.Core.Enrichment.{RequiresActionEnrichment}
use ccctl.Core.Answer.{
  AnswerEnvelope, AnswerValidation, accepted, rejected, validate_answer_against_enrichment,
}
use ccctl.Server.Worker.{Environment, WorkerChannelState}
use ccctl.Server.Worker.Handlers.{json, consume_input_request_enrichment}
use ccctl.Server.Commands.{
  UiCommand, envelope_of, sequence_of, verdict_status, answer_rejection, relay_command,
  accept_command, run_command,
}

verdict-accepted : (v : AnswerValidation) → verdict_status v ≡ none → v ≡ accepted
verdict-accepted accepted e = refl
verdict-accepted (rejected r) e = cc

-- An answer that is not rejected fits the decision that is outstanding.
not_rejected :
    (s : WorkerChannelState) (id : String) (payload : Option Fields)
    → answer_rejection s id payload ≡ none
    → (envelope : AnswerEnvelope) × (enrichment : RequiresActionEnrichment) × (envelope_of payload
        ≡ some envelope)
      × (get id s.hub.requires_action_enrichments ≡ some enrichment)
      × (validate_answer_against_enrichment enrichment envelope (sequence_of payload) ≡ accepted)
unfolding answer_rejection
not_rejected s id payload e = elim (Option-cases (envelope_of payload)) [
  | inl v ↦ absurd (let no = rw (v, answer_rejection) at e in cc no)
  | inr (envelope, v) ↦ elim (Option-cases (get id s.hub.requires_action_enrichments)) [
    | inl g ↦ absurd (let no = rw (v, g, answer_rejection) at e in cc no)
    | inr (enrichment, g) ↦
        (envelope, enrichment, v, g, verdict-accepted _ (rw (v, g, answer_rejection) at e))
  ]
]

not_prompt : (t : String) → str_eq t "answer" ≡ true → str_eq t "prompt" ≡ false
not_prompt t k = rw ((eq_iff t "answer").0 k) refl

module _ (env : Environment) where
  accept-consumes :
      (s : WorkerChannelState) (id : String) (command : UiCommand) (j : Json)
      (t : WorkerChannelState)
      → str_eq command.subtype "answer" ≡ true
      → accept_command env s id command ≡ (json j, t)
      → get id t.hub.requires_action_enrichments ≡ none
  unfolding accept_command
  accept-consumes s id command j t k e =
      let minted = record s { uuids = s.uuids + 1 } in
      elim (Option-cases (relay_command env minted id (env.uuid s.uuids) command)) [
        | inl r ↦ absurd (let no = ap (λ x. x.0) (rw (r, accept_command) at e) in cc no)
        | inr (u, r) ↦
            let same : consume_input_request_enrichment u id ≡ t =
              ap (λ x. x.1) (rw (r, k, accept_command) at e) in
            subst (λ w. get id w.hub.requires_action_enrichments ≡ none) same
              (get-delete_self id u.hub.requires_action_enrichments)
      ]

  -- What has happened when an answer was accepted.
  run-accepted :
      (s : WorkerChannelState) (id : String) (command : UiCommand) (j : Json)
      (t : WorkerChannelState)
      → str_eq command.subtype "answer" ≡ true
      → run_command env s id command ≡ (json j, t)
      → (answer_rejection s id command.payload ≡ none)
        × (get id t.hub.requires_action_enrichments ≡ none)
  unfolding run_command
  run-accepted s id command j t k e = elim (Bool-cases (has id s.hub.sessions)) [
    | inr h ↦ absurd (let no = ap (λ x. x.0) (rw (h, run_command) at e) in cc no)
    | inl h ↦
        let p : str_eq command.subtype "prompt" ≡ false = not_prompt command.subtype k in
        elim (Option-cases (answer_rejection s id command.payload)) [
          | inr (status, r) ↦
              absurd (let no = ap (λ x. x.0) (rw (h, p, k, r, run_command) at e) in cc no)
          | inl r ↦ (r, accept-consumes s id command j t k (rw (h, p, k, r, run_command) at e))
        ]
  ]

  -- With no outstanding decision an answer changes nothing.
  run-refused :
      (s : WorkerChannelState) (id : String) (command : UiCommand)
      → str_eq command.subtype "answer" ≡ true
      → get id s.hub.requires_action_enrichments ≡ none
      → (run_command env s id command).1 ≡ s
  unfolding run_command answer_rejection
  run-refused s id command k g = elim (Bool-cases (has id s.hub.sessions)) [
    | inr h ↦ rw (h, run_command) refl
    | inl h ↦
        let p : str_eq command.subtype "prompt" ≡ false = not_prompt command.subtype k in
        elim (Option-cases (envelope_of command.payload)) [
          | inl v ↦ rw (h, p, k, v, run_command, answer_rejection) refl
          | inr (envelope, v) ↦ rw (h, p, k, v, g, run_command, answer_rejection) refl
        ]
  ]

  -- An answer that the UI is told is accepted fits the decision that was outstanding, which is then gone: any
  -- further answer to the session, before its worker asks anew, changes nothing.
  pub run_command-once :
      (s : WorkerChannelState) (id : String) (command again : UiCommand) (j : Json)
      (t : WorkerChannelState)
      → str_eq command.subtype "answer" ≡ true
      → str_eq again.subtype "answer" ≡ true
      → run_command env s id command ≡ (json j, t)
      → ((envelope : AnswerEnvelope) × (enrichment : RequiresActionEnrichment) × (envelope_of
              command.payload
            ≡ some envelope)
          × (get id s.hub.requires_action_enrichments ≡ some enrichment)
          × (validate_answer_against_enrichment enrichment envelope (sequence_of command.payload)
              ≡ accepted))
        × ((run_command env t id again).1 ≡ t)
  run_command-once s id command again j t k l e =
      let (r, gone) = run-accepted s id command j t k e in
      (not_rejected s id command.payload r, run-refused t id again l gone)
