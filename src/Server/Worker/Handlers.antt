-- ===== src/Server/Worker/Handlers.antt =====
-- The requests of a worker in packages/server/src/worker-channel.ts. A body that is read is an argument;
-- `none` of `onBody` is a body that could not be read, with the status of that error. Logging is left out.
use ccctl.Base.{
  ℕ, ◌+◌, String, Bool, true, false, not, Option, none, some, ◌==◌, ltb, str_eq, if◌then◌else◌,
}
use ccctl.Base.Dict.{Dict, get, set, delete, has}
use ccctl.Core.Json.{Json, num, nonneg, null, obj, field, end, as_object, as_array}
use ccctl.Core.Enrichment.{RequiresActionEnrichment, requires_action_enrichment_from_frame}
use ccctl.Core.Session.{
  Session, registering, is_input_awaited, is_stale_worker_status_sequence, mark_session_ready,
  record_heartbeat,
}
use ccctl.Server.EventStream.{write}
use ccctl.Server.Worker.{
  WorkerChannelRecord, WorkerChannelState, liveness, Listener, update, put_record, put_wire, arm,
  disarm, end_downstream, schedule_eviction, same_response,
}

-- What a request is answered: an error with its status, a JSON body, or an open stream.
pub data Reply : Type 0 where
  error : (status : ℕ) → Reply
  json : Json → Reply
  stream : Reply

abbrev pub rejects_registering : Session → Bool
rejects_registering session = elim session.status [ registering ↦ true | _ ↦ false ]

abbrev pub empty : Json
empty = obj end

abbrev pub put_session : WorkerChannelState → String → Session → WorkerChannelState
put_session s id session = record s {
  hub = record s.hub { sessions = set id session s.hub.sessions };
}

-- The record that a registration puts in place of the one before.
abbrev pub fresh_record : Option WorkerChannelRecord → WorkerChannelRecord
fresh_record none = record {
  epoch = 1;
  downstream = none;
  next_seq = 1;
  highest_status_seq = none;
  liveness_timer = none;
  eviction_timer = none;
  idle_timer = none;
}
fresh_record (some prev) = record {
  epoch = prev.epoch + 1;
  downstream = none;
  next_seq = prev.next_seq;
  highest_status_seq = none;
  liveness_timer = none;
  eviction_timer = none;
  idle_timer = none;
}

abbrev pub add_channel : WorkerChannelState → String → WorkerChannelRecord → WorkerChannelState
add_channel s id r = record s {
  worker_channels = set id s.next_ref s.worker_channels;
  heap = update s.heap s.next_ref r;
  next_ref = s.next_ref + 1;
}

-- The registration itself, once the request is accepted.
unfoldable pub register : WorkerChannelState → String → WorkerChannelState
unfolding end_downstream
register s id = elim (get id s.worker_channels) [
  | none ↦ add_channel s id (fresh_record none)
  | some prev ↦
      let ended = end_downstream s prev in add_channel ended id (fresh_record (some (s.heap prev)))
]

unfoldable pub handle_worker_register :
    String → WorkerChannelState → String → Reply × WorkerChannelState
unfolding register
handle_worker_register method s id =
    if not (str_eq method "POST") then (error 405, s) else elim (get id s.hub.sessions) [
      | none ↦ (error 404, s)
      | some session ↦
          if rejects_registering session
          then (error 409, s)
          else let registered = register s id in
            let epoch : ℕ = elim (get id registered.worker_channels) [
              | none ↦ 0
              | some ref ↦ (registered.heap ref).epoch
            ] in
            (json (obj (field "worker_epoch" (num (nonneg epoch)) end)), registered)
    ]

-- `markSessionReady` on the session in the map, if it is there.
unfoldable pub ready_session : WorkerChannelState → String → WorkerChannelState
ready_session s id = elim (get id s.hub.sessions) [
  | none ↦ s
  | some session ↦ put_session s id (mark_session_ready session)
]

-- The new response becomes the downstream, with its timer and its listener.
unfoldable pub attach_downstream : WorkerChannelState → String → ℕ → WorkerChannelState
attach_downstream s id ref =
    record (put_record (arm s (liveness ref s.next_response)) ref (record (s.heap ref) {
      downstream = some s.next_response;
      liveness_timer = some s.next_timer;
    })) {
      listeners =
          update s.listeners s.next_response
            (some (record { session_id = id; ref = ref; timer = s.next_timer }));
      next_response = s.next_response + 1;
    }

-- The stream of an accepted request, from `endDownstream` on.
unfoldable pub open_stream : WorkerChannelState → String → ℕ → WorkerChannelState
unfolding end_downstream ready_session attach_downstream
open_stream s id ref =
    let ended = end_downstream s ref in
    let greeted =
      put_wire ended (write ended.hub.wire s.next_response ": ccctl worker stream\n\n") in
    attach_downstream (ready_session greeted id) id ref

unfoldable pub handle_worker_events_stream :
    String → WorkerChannelState → String → Reply × WorkerChannelState
unfolding open_stream
handle_worker_events_stream method s id =
    if not (str_eq method "GET")
    then (error 405, s)
    else if not (has id s.hub.sessions)
    then (error 404, s)
    else elim (get id s.worker_channels) [
      | none ↦ (error 409, s)
      | some ref ↦ (stream, open_stream s id ref)
    ]

-- The callback of a downstream that is closed.
unfoldable pub lose_downstream : WorkerChannelState → ℕ → Listener → WorkerChannelState
unfolding disarm schedule_eviction
lose_downstream s res l =
    let stopped = disarm s (some l.timer) in
    if same_response (stopped.heap l.ref).downstream res
    then schedule_eviction
        (put_record stopped l.ref
          (record (stopped.heap l.ref) { downstream = none; liveness_timer = none }))
        l.session_id l.ref
    else stopped

abbrev pub refuse_stale_status_frame : WorkerChannelState → ℕ → Option ℕ → Bool
refuse_stale_status_frame s ref sequence =
    is_stale_worker_status_sequence sequence (s.heap ref).highest_status_seq

-- `sequence !== null && (highest === null || sequence > highest)`
abbrev pub highest : Option ℕ → Option ℕ → Option ℕ
highest none old = old
highest (some n) none = some n
highest (some n) (some m) = if ltb m n then some n else some m

abbrev pub record_status_sequence : WorkerChannelState → ℕ → Option ℕ → WorkerChannelState
record_status_sequence s ref sequence =
    put_record s ref (record (s.heap ref) {
      highest_status_seq = highest sequence (s.heap ref).highest_status_seq;
    })

abbrev pub put_enrichments : WorkerChannelState → Dict RequiresActionEnrichment → WorkerChannelState
put_enrichments s e = record s { hub = record s.hub { requires_action_enrichments = e } }

unfoldable pub buffer_input_request_enrichment :
    WorkerChannelState → String → Json → WorkerChannelState
buffer_input_request_enrichment s id payload = elim (as_object payload) [
  | none ↦ s
  | some frame ↦ elim (requires_action_enrichment_from_frame frame) [
    | none ↦ s
    | some e ↦ put_enrichments s (set id e s.hub.requires_action_enrichments)
  ]
]

unfoldable pub reconcile_enrichment_buffer :
    WorkerChannelState → String → Session → WorkerChannelState
reconcile_enrichment_buffer s id next =
    if is_input_awaited next.activity
    then s
    else put_enrichments s (delete id s.hub.requires_action_enrichments)

abbrev pub consume_input_request_enrichment : WorkerChannelState → String → WorkerChannelState
consume_input_request_enrichment s id =
    put_enrichments s (delete id s.hub.requires_action_enrichments)

unfoldable pub handle_worker_state_restore : String → WorkerChannelState → String → Reply
handle_worker_state_restore method s id =
    if not (str_eq method "GET") then error 405 else elim (get id s.hub.sessions) [
      | none ↦ error 404
      | some session ↦
          if rejects_registering session then error 409 else json (obj (field "worker" null end))
    ]

unfoldable pub handle_worker_heartbeat :
    String → WorkerChannelState → String → ℕ → Reply × WorkerChannelState
unfolding record_heartbeat
handle_worker_heartbeat method s id now =
    if not (str_eq method "POST") then (error 405, s) else elim (get id s.hub.sessions) [
      | none ↦ (error 404, s)
      | some session ↦
          if rejects_registering session
          then (error 409, s)
          else (json empty, put_session s id (record_heartbeat session now))
    ]

-- `readWorkerBody` up to the body, which comes later and finds the state of then.
unfoldable pub refuses_method : String → String → WorkerChannelState → String → Option Reply
refuses_method expected method s id =
    if not (str_eq method expected)
    then some (error 405)
    else if not (has id s.hub.sessions)
    then some (error 404)
    else none

pub data Body : Type 0 where
  unread : (status : ℕ) → Body
  read : Json → Body

abbrev pub is_epoch : Option Json → ℕ → Bool
is_epoch (some (num (nonneg n))) epoch = n == epoch
is_epoch (some null) epoch = false
is_epoch none epoch = false
is_epoch _ epoch = false

-- `readWorkerBody` from the body on: `onBody` is called for the current epoch only.
unfoldable pub with_body :
    WorkerChannelState
    → String
    → Body
    → (ℕ → Dict Json → Reply × WorkerChannelState)
    → Reply × WorkerChannelState
with_body s id (unread status) on_body = (error status, s)
with_body s id (read value) on_body = elim (as_object value) [
  | none ↦ (error 400, s)
  | some body ↦ elim (get id s.worker_channels) [
    | none ↦ (error 409, s)
    | some ref ↦
        if is_epoch (get "worker_epoch" body) (s.heap ref).epoch
        then on_body ref body
        else (error 409, s)
  ]
]

-- From the body on.
unfoldable pub handle_worker_delivery :
    WorkerChannelState → String → Body → Reply × WorkerChannelState
unfolding with_body
handle_worker_delivery s id body = with_body s id body (λ ref o. elim (as_array (get "updates" o)) [
  | none ↦ (error 400, s)
  | some updates ↦ (json empty, s)
])
