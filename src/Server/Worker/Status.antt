-- ===== src/Server/Worker/Status.antt =====
-- The events and the status that a worker reports in packages/server/src/worker-channel.ts, and what they
-- change in its session.
use ccctl.Base.{
  ℕ, ◌+◌, String, Bool, true, false, not, ◌||◌, List, [], ◌∷◌, Option, none, some, if◌then◌else◌,
}
use ccctl.Base.Dict.{get}
use ccctl.Core.Json.{
  Json, num, nonneg, null, str, obj, arr, cons, nil, field, end, as_object, as_array,
}
use ccctl.Core.Session.{
  Session, WorkerStatus, is_input_awaited, apply_worker_status, apply_worker_status_frame,
  worker_status_event, worker_status_of, as_worker_status_sequence,
  worker_status_sequence_from_frame,
}
use ccctl.Server.Worker.{
  Environment, WorkerChannelState, reconcile_idle_timer, reconcile_needs_input, broadcast,
  push_client_event,
}
use ccctl.Server.Worker.Handoff.{Disk, consume_hook_handoff_questions}
use ccctl.Server.Worker.Handlers.{
  Reply, error, json, empty, put_session, refuse_stale_status_frame, record_status_sequence,
  buffer_input_request_enrichment, reconcile_enrichment_buffer, Body, with_body,
}

module _ (env : Environment) (parse : String → Option Json) (disk : ℕ → ℕ → Disk) where
  -- The file of an install as it is at this read: the hook writes one anew for each question, so one that was deleted
  -- may be there again.
  abbrev pub handoff_of : WorkerChannelState → ℕ → Option Json × Bool
  handoff_of s install = consume_hook_handoff_questions parse (disk s.hook_reads install)

  -- The questions of the hook, taken from its file into the buffer.
  unfoldable pub take_handoff : WorkerChannelState → String → ℕ → ℕ → WorkerChannelState
  unfolding consume_hook_handoff_questions buffer_input_request_enrichment
  take_handoff s id sequence install =
      let taken = handoff_of s install in
      let after = record s {
        hook_reads = s.hook_reads + 1;
        consumed = if taken.1 then install ∷ s.consumed else s.consumed;
      } in
      elim taken.0 [
        | none ↦ after
        | some questions ↦ buffer_input_request_enrichment after id (
            obj (
              field "type" (str "control_event") (
                field "subtype" (str "input_request") (
                  field "payload"
                    (obj (
                      field "sequence_num" (num (nonneg sequence))
                        (field "questions" questions end)))
                    end))))
      ]

  unfoldable pub reconcile_hook_handoff :
      WorkerChannelState → String → Session → Session → Option ℕ → WorkerChannelState
  unfolding take_handoff
  reconcile_hook_handoff s id prior next sequence =
      if is_input_awaited prior.activity || not (is_input_awaited next.activity)
      then s
      else elim sequence [
        | none ↦ s
        | some n ↦ elim (get id s.hub.hook_installs) [
          | none ↦ s
          | some install ↦ take_handoff s id n install
        ]
      ]

  -- What follows a status that was applied, in the order of both handlers.
  unfoldable pub settle :
      WorkerChannelState → String → Session → Session → Option ℕ → ℕ → WorkerChannelState
  unfolding reconcile_idle_timer reconcile_needs_input reconcile_enrichment_buffer
      reconcile_hook_handoff
  settle s id session next sequence now =
      let idled = reconcile_idle_timer (put_session s id next) id next in
      let told = reconcile_needs_input env idled id session next now in
      reconcile_hook_handoff (reconcile_enrichment_buffer told id next) id session next sequence

  -- `true` is a refused frame.
  unfoldable pub fold_worker_status :
      WorkerChannelState → ℕ → String → Json → ℕ → Bool × WorkerChannelState
  unfolding settle
  fold_worker_status s ref id payload now = elim (as_object payload) [
    | none ↦ (false, s)
    | some frame ↦ elim (get id s.hub.sessions) [
      | none ↦ (false, s)
      | some session ↦
          let sequence = worker_status_sequence_from_frame frame in
          if refuse_stale_status_frame s ref sequence
          then (true, s)
          else let recorded = record_status_sequence s ref sequence in
            elim (worker_status_event frame) [
              | none ↦ (false, recorded)
              | some e ↦ (
                false,
                settle recorded id session (apply_worker_status_frame session frame now) sequence
                    now,
              )
            ]
    ]
  ]

  -- One entry of `events`.
  unfoldable pub take_event : WorkerChannelState → ℕ → String → ℕ → Json → WorkerChannelState
  unfolding fold_worker_status buffer_input_request_enrichment broadcast
  take_event s ref id now entry = elim (as_object entry) [
    | none ↦ s
    | some o ↦ elim (get "payload" o) [
      | none ↦ s
      | some payload ↦
          let (refused, folded) = fold_worker_status s ref id payload now in
          if refused
          then folded
          else broadcast env (buffer_input_request_enrichment folded id payload) id payload
    ]
  ]

  unfoldable pub take_events : WorkerChannelState → ℕ → String → ℕ → List Json → WorkerChannelState
  unfolding take_event
  take_events s ref id now [] = s
  take_events s ref id now (entry ∷ entries) =
      take_events (take_event s ref id now entry) ref id now entries

  -- This handler and the next are the calls of `readWorkerBody` from the body on; what it refuses before the body
  -- is read, while the state may still change, is `refuses_method`.
  unfoldable pub handle_worker_events :
      WorkerChannelState → String → Body → ℕ → Reply × WorkerChannelState
  unfolding with_body take_events
  handle_worker_events s id body now = with_body s id body (λ ref o.
      elim (as_array (get "events" o)) [
        | none ↦ (error 400, s)
        | some entries ↦ (json empty, take_events s ref id now entries)
      ])

  -- The status of an accepted body, if the session is still there.
  unfoldable pub take_status :
      WorkerChannelState → ℕ → String → WorkerStatus → Option ℕ → ℕ → WorkerChannelState
  unfolding settle
  take_status s ref id status sequence now = elim (get id s.hub.sessions) [
    | none ↦ s
    | some session ↦
        if refuse_stale_status_frame s ref sequence
        then s
        else settle (record_status_sequence s ref sequence) id session
            (apply_worker_status session status none now) sequence now
  ]

  unfoldable pub handle_worker_status :
      WorkerChannelState → String → Body → ℕ → Reply × WorkerChannelState
  unfolding with_body take_status
  handle_worker_status s id body now = with_body s id body (λ ref o. elim (get "worker_status" o) [
    | none ↦ (error 400, s)
    | some v ↦ elim (worker_status_of v) [
      | none ↦ (error 400, s)
      | some status ↦ (
        json empty,
        take_status s ref id status (as_worker_status_sequence (get "sequence_num" o)) now,
      )
    ]
  ])

module _ (env : Environment) where
  -- `none` is the error that no worker is there.
  unfoldable pub inject_user_turn : WorkerChannelState → String → String → Option WorkerChannelState
  unfolding push_client_event
  inject_user_turn s id prompt =
      push_client_event env (record s { uuids = s.uuids + 1 }) id
        (obj (
          field "type" (str "user") (
            field "message"
              (obj (
                field "role" (str "user") (
                  field "content"
                    (arr
                      (cons (obj (field "type" (str "text") (field "text" (str prompt) end))) nil))
                    end)))
              (field "parent_tool_use_id" null
                (field "session_id" (str id) (field "uuid" (str (env.uuid s.uuids)) end))))))

  abbrev pub dispatch_control_request :
      WorkerChannelState → String → Json → Option WorkerChannelState
  dispatch_control_request s id request = push_client_event env s id request
