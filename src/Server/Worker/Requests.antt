-- ===== src/Server/Worker/Requests.antt =====
-- The requests of a worker in packages/server/src/worker-channel.ts keep the timers in hand.
use native.Mathlib.Omega.{arith}
use ccctl.Base.{
  ℕ, ◌<◌, ◌≡◌, refl, inl, inr, String, List, [], ◌∷◌, Option, none, some, Option-cases, Bool-cases,
}
use ccctl.Base.Dict.{Dict, get}
use ccctl.Core.Json.{Json, as_object, as_array}
use ccctl.Core.Session.{
  Session, WorkerStatus, worker_status_event, worker_status_sequence_from_frame, worker_status_of,
  as_worker_status_sequence,
}
use ccctl.Server.EventStream.{write}
use ccctl.Server.Worker.{
  Environment, WorkerChannelState, end_downstream, reconcile_idle_timer, reconcile_needs_input,
  broadcast, put_wire,
}
use ccctl.Server.Worker.Handoff.{Disk}
use ccctl.Server.Worker.Handlers.{
  Reply, error, json, empty, Body, with_body, unread, read, open_stream, refuse_stale_status_frame,
  record_status_sequence, put_session, buffer_input_request_enrichment, reconcile_enrichment_buffer,
  highest, is_epoch, ready_session, attach_downstream,
}
use ccctl.Server.Worker.Status.{
  reconcile_hook_handoff, settle, fold_worker_status, take_event, take_events, handle_worker_events,
  take_status, handle_worker_status,
}
use ccctl.Server.Worker.Timers.{
  IsOwned, end_downstream-IsOwned, end_downstream-Ended, put_record-IsOwned, SameChannels,
  SameChannels-IsOwned,
}
use ccctl.Server.Worker.Owned.{reconcile_idle_timer-IsOwned, needs_input-SameChannels}

attach-IsOwned :
    (s : WorkerChannelState) (id : String) (ref : ℕ)
    → ref < s.next_ref
    → (s.heap ref).liveness_timer ≡ none
    → (s.heap ref).eviction_timer ≡ none
    → IsOwned s
    → IsOwned (attach_downstream s id ref)
unfolding attach_downstream
attach-IsOwned s id ref known no_liveness no_eviction o = record {
  owner = λ t task e. ground (arith, o.owner t task);
  exclusive = λ r. ground (arith, o.exclusive r);
  listening = λ res l e d. ground (arith, o.listening res l);
  task_known = λ t task e. ground (arith, o.task_known t task);
  channel_known = o.channel_known;
  listener_known = λ res l e. ground (arith, o.listener_known res l);
}

ready-SameChannels : (s : WorkerChannelState) (id : String) → SameChannels s (ready_session s id)
unfolding ready_session
ready-SameChannels s id = record {
  heap = ground arith;
  armed = ground arith;
  listeners = ground arith;
  channels = ground arith;
  refs = ground arith;
}

pub open_stream-IsOwned :
    (s : WorkerChannelState) (id : String) (ref : ℕ)
    → ref < s.next_ref
    → IsOwned s
    → IsOwned (open_stream s id ref)
unfolding open_stream
open_stream-IsOwned s id ref known o =
    let ended = end_downstream s ref in
    let e = end_downstream-Ended s ref in
    let greeted =
      put_wire ended (write ended.hub.wire s.next_response ": ccctl worker stream\n\n") in
    let same = ready-SameChannels greeted id in
    attach-IsOwned (ready_session greeted id) id ref (rw (same.refs, e.refs) known)
      (rw same.heap (rw e.quiet refl)) (rw same.heap (rw e.quiet refl))
      (SameChannels-IsOwned greeted (ready_session greeted id) same
        (end_downstream-IsOwned s ref o))

pub enrichment-SameChannels :
    (s : WorkerChannelState) (id : String) (payload : Json)
    → SameChannels s (buffer_input_request_enrichment s id payload)
unfolding buffer_input_request_enrichment
enrichment-SameChannels s id payload = record {
  heap = ground arith;
  armed = ground arith;
  listeners = ground arith;
  channels = ground arith;
  refs = ground arith;
}

pub buffer-SameChannels :
    (s : WorkerChannelState) (id : String) (next : Session)
    → SameChannels s (reconcile_enrichment_buffer s id next)
unfolding reconcile_enrichment_buffer
buffer-SameChannels s id next = record {
  heap = ground arith;
  armed = ground arith;
  listeners = ground arith;
  channels = ground arith;
  refs = ground arith;
}

module _ (env : Environment) (parse : String → Option Json) (disk : ℕ → ℕ → Disk) where
  pub handoff-SameChannels :
      (s : WorkerChannelState) (id : String) (prior next : Session) (sequence : Option ℕ)
      → SameChannels s (reconcile_hook_handoff env parse disk s id prior next sequence)
  unfolding reconcile_hook_handoff buffer_input_request_enrichment
  handoff-SameChannels s id prior next sequence = record {
    heap = ground arith;
    armed = ground arith;
    listeners = ground arith;
    channels = ground arith;
    refs = ground arith;
  }

  pub settle-IsOwned :
      (s : WorkerChannelState) (id : String) (session next : Session) (sequence : Option ℕ)
      (now : ℕ)
      → IsOwned s
      → IsOwned (settle env parse disk s id session next sequence now)
  unfolding settle
  settle-IsOwned s id session next sequence now o =
      let idled = reconcile_idle_timer (put_session s id next) id next in
      let told = reconcile_needs_input env idled id session next now in
      let kept = reconcile_enrichment_buffer told id next in
      SameChannels-IsOwned kept _ (handoff-SameChannels kept id session next sequence) (
        SameChannels-IsOwned told kept (buffer-SameChannels told id next) (
          SameChannels-IsOwned idled told (needs_input-SameChannels env idled id session next now)
            (reconcile_idle_timer-IsOwned (put_session s id next) id next o)))

  pub sequence-IsOwned :
      (s : WorkerChannelState) (ref : ℕ) (sequence : Option ℕ)
      → IsOwned s
      → IsOwned (record_status_sequence s ref sequence)
  sequence-IsOwned s ref sequence o =
      put_record-IsOwned s ref
        (record (s.heap ref) {
          highest_status_seq = highest sequence (s.heap ref).highest_status_seq;
        })
        (record {
          downstream = refl;
          liveness_timer = refl;
          eviction_timer = refl;
          idle_timer = refl;
        })
        o

  pub fold-IsOwned :
      (s : WorkerChannelState) (ref : ℕ) (id : String) (payload : Json) (now : ℕ)
      → IsOwned s
      → IsOwned (fold_worker_status env parse disk s ref id payload now).1
  unfolding fold_worker_status
  fold-IsOwned s ref id payload now o = elim (Option-cases (as_object payload)) [
    | inl e ↦ rw (e, fold_worker_status) o
    | inr (frame, e) ↦ elim (Option-cases (get id s.hub.sessions)) [
      | inl g ↦ rw (e, g, fold_worker_status) o
      | inr (session, g) ↦
          let sequence = worker_status_sequence_from_frame frame in
          elim (Bool-cases (refuse_stale_status_frame s ref sequence)) [
            | inl k ↦ rw (e, g, k, fold_worker_status) o
            | inr k ↦ elim (Option-cases (worker_status_event frame)) [
              | inl w ↦ rw (e, g, k, w, fold_worker_status) (sequence-IsOwned s ref sequence o)
              | inr (event, w) ↦
                  rw (e, g, k, w, fold_worker_status)
                    (settle-IsOwned _ id session _ sequence now (sequence-IsOwned s ref sequence o))
            ]
          ]
    ]
  ]

  take_event-IsOwned :
      (s : WorkerChannelState) (ref : ℕ) (id : String) (now : ℕ) (entry : Json)
      → IsOwned s
      → IsOwned (take_event env parse disk s ref id now entry)
  unfolding take_event broadcast
  take_event-IsOwned s ref id now entry o = elim (Option-cases (as_object entry)) [
    | inl e ↦ rw (e, take_event) o
    | inr (fields, e) ↦ elim (Option-cases (get "payload" fields)) [
      | inl g ↦ rw (e, g, take_event) o
      | inr (payload, g) ↦
          let folded = fold_worker_status env parse disk s ref id payload now in
          let p = fold-IsOwned s ref id payload now o in
          elim (Bool-cases folded.0) [
            | inl k ↦ rw (e, g, k, take_event) p
            | inr k ↦
                rw (e, g, k, take_event)
                  (SameChannels-IsOwned folded.1 _ (enrichment-SameChannels folded.1 id payload) p)
          ]
    ]
  ]

  take_events-IsOwned :
      (s : WorkerChannelState) (ref : ℕ) (id : String) (now : ℕ) (entries : List Json)
      → IsOwned s
      → IsOwned (take_events env parse disk s ref id now entries)
  unfolding take_events
  take_events-IsOwned s ref id now [] o = o
  take_events-IsOwned s ref id now (e ∷ es) o =
      take_events-IsOwned (take_event env parse disk s ref id now e) ref id now es
        (take_event-IsOwned s ref id now e o)

  take_status-IsOwned :
      (s : WorkerChannelState) (ref : ℕ) (id : String) (status : WorkerStatus) (sequence : Option ℕ)
      (now : ℕ)
      → IsOwned s
      → IsOwned (take_status env parse disk s ref id status sequence now)
  unfolding take_status
  take_status-IsOwned s ref id status sequence now o = elim (Option-cases (get id s.hub.sessions)) [
    | inl g ↦ rw (g, take_status) o
    | inr (session, g) ↦ elim (Bool-cases (refuse_stale_status_frame s ref sequence)) [
      | inl k ↦ rw (g, k, take_status) o
      | inr k ↦
          rw (g, k, take_status)
            (settle-IsOwned _ id session _ sequence now (sequence-IsOwned s ref sequence o))
    ]
  ]

-- What holds of the state of every answer holds after a body.
with_body-Keeps :
    (P : WorkerChannelState → Type 0) (s : WorkerChannelState) (id : String) (body : Body)
    (on_body : ℕ → Dict Json → Reply × WorkerChannelState)
    → ((ref : ℕ) (o : Dict Json) → P (on_body ref o).1)
    → P s
    → P (with_body s id body on_body).1
unfolding with_body
with_body-Keeps P s id (unread status) on_body f p = p
with_body-Keeps P s id (read value) on_body f p = elim (Option-cases (as_object value)) [
  | inl e ↦ rw (e, with_body) p
  | inr (o, e) ↦ elim (Option-cases (get id s.worker_channels)) [
    | inl g ↦ rw (e, g, with_body) p
    | inr (ref, g) ↦ elim (Bool-cases (is_epoch (get "worker_epoch" o) (s.heap ref).epoch)) [
      | inl k ↦ rw (e, g, k, with_body) (f ref o)
      | inr k ↦ rw (e, g, k, with_body) p
    ]
  ]
]

module _ (env : Environment) (parse : String → Option Json) (disk : ℕ → ℕ → Disk)
    (s : WorkerChannelState) (id : String) (body : Body) (now : ℕ) where
  pub handle_worker_events-IsOwned :
      IsOwned s → IsOwned (handle_worker_events env parse disk s id body now).1
  unfolding handle_worker_events
  handle_worker_events-IsOwned o = with_body-Keeps IsOwned s id body _ on_body o
    where
      on_body :
          (ref : ℕ) (f : Dict Json)
          → IsOwned
              (elim (as_array (get "events" f)) as (λ x. Reply × WorkerChannelState) [
                | none ↦ (error 400, s)
                | some entries ↦ (json empty, take_events env parse disk s ref id now entries)
              ]).1
      on_body ref f = elim (Option-cases (as_array (get "events" f))) [
        | inl e ↦ rw e o
        | inr (entries, e) ↦ rw e (take_events-IsOwned env parse disk s ref id now entries o)
      ]

  pub handle_worker_status-IsOwned :
      IsOwned s → IsOwned (handle_worker_status env parse disk s id body now).1
  unfolding handle_worker_status
  handle_worker_status-IsOwned o = with_body-Keeps IsOwned s id body _ on_body o
    where
      on_body :
          (ref : ℕ) (f : Dict Json)
          → IsOwned
              (elim (get "worker_status" f) as (λ x. Reply × WorkerChannelState) [
                | none ↦ (error 400, s)
                | some v ↦ elim (worker_status_of v) as (λ x. Reply × WorkerChannelState) [
                  | none ↦ (error 400, s)
                  | some status ↦ (
                    json empty,
                    take_status env parse disk s ref id status
                        (as_worker_status_sequence (get "sequence_num" f))
                        now,
                  )
                ]
              ]).1
      on_body ref f = elim (Option-cases (get "worker_status" f)) [
        | inl e ↦ rw e o
        | inr (v, e) ↦ elim (Option-cases (worker_status_of v)) [
          | inl k ↦ rw (e, k) o
          | inr (status, k) ↦ rw (e, k) (take_status-IsOwned env parse disk s ref id status _ now o)
        ]
      ]
