-- ===== src/Server/Worker.antt =====
-- packages/server/src/worker-channel.ts: the channel between a session and its worker. Its records are
-- shared by a map, by timers and by listeners, so they stand in a heap and are known by their address. A timer
-- is a number; `armed` tells what it will call. `randomUUID` and the files of the hooks are parameters.
pub mod Handoff
pub mod Handlers
pub mod Status
pub mod Timers
pub mod Owned
pub mod Requests
pub mod History
pub mod Epochs
pub mod Frames
pub mod Evictions
pub mod Reports
pub mod Sequences
use Prim.Native.String.{◌++◌ as ◌+++◌}
use ccctl.Base.{
  ℕ, ◌+◌, String, Bool, true, false, not, ◌&&◌, ◌||◌, List, [], ◌∷◌, ◌++◌, Option, none, some, ◌==◌,
  any, if◌then◌else◌,
}
use ccctl.Base.Dict.{Dict, get, set, delete}
use ccctl.Core.Json.{Json, num, nonneg, str, bool, obj, field, end}
use ccctl.Core.Enrichment.{decimal}
use ccctl.Core.Session.{
  Session, SessionActivity, is_running, is_idle, awaits, is_input_awaited, is_session_stale,
}
use ccctl.Server.EventStream.{Wire, broadcast_event, end_all, write}
use ccctl.Server.Close.{SessionCloseState, close_session}

-- What the channel uses of its surroundings, and its settings in milliseconds.
pub record Environment : Type 0 where
  pub stringify : Json → String
  pub uuid : ℕ → String
  pub session_eviction_grace_ms : ℕ
  pub session_idle_threshold_ms : ℕ

pub record WorkerChannelRecord : Type 0 where
  pub epoch : ℕ
  pub downstream : Option ℕ
  pub next_seq : ℕ
  pub highest_status_seq : Option ℕ
  pub liveness_timer : Option ℕ
  pub eviction_timer : Option ℕ
  pub idle_timer : Option ℕ

-- What a timer calls: `writeLivenessFrame` at every interval, the other two once.
pub data Task : Type 0 where
  liveness : (ref res : ℕ) → Task
  eviction : (session_id : String) (ref : ℕ) → Task
  idle : (session_id : String) (ref : ℕ) → Task

-- `res.on("close", ...)` of a downstream: what its callback has captured.
pub record Listener : Type 0 where
  pub session_id : String
  pub ref : ℕ
  pub timer : ℕ

pub record WorkerChannelState : Type 0 where
  pub hub : SessionCloseState
  pub worker_channels : Dict ℕ
  pub heap : ℕ → WorkerChannelRecord
  pub next_ref : ℕ
  pub armed : ℕ → Option Task
  pub next_timer : ℕ
  pub listeners : ℕ → Option Listener
  pub next_response : ℕ
  pub uuids : ℕ
  pub hook_reads : ℕ
  pub consumed : List ℕ

-- A write at one address of a store.
abbrev pub update {ℓ} : {A : Type ℓ} → (ℕ → A) → ℕ → A → ℕ → A
update f p v q = if p == q then v else f q

abbrev pub put_record : WorkerChannelState → ℕ → WorkerChannelRecord → WorkerChannelState
put_record s ref r = record s { heap = update s.heap ref r }

-- `clearTimeout` and `clearInterval`.
unfoldable pub disarm : WorkerChannelState → Option ℕ → WorkerChannelState
disarm s none = s
disarm s (some timer) = record s { armed = update s.armed timer none }

-- `setTimeout` and `setInterval`; the new timer is `next_timer` of the state before.
abbrev pub arm : WorkerChannelState → Task → WorkerChannelState
arm s task = record s {
  armed = update s.armed s.next_timer (some task);
  next_timer = s.next_timer + 1;
}

unfoldable pub clear_liveness_timer : WorkerChannelState → ℕ → WorkerChannelState
unfolding disarm
clear_liveness_timer s ref =
    put_record (disarm s (s.heap ref).liveness_timer) ref
      (record (s.heap ref) { liveness_timer = none })

unfoldable pub clear_eviction_timer : WorkerChannelState → ℕ → WorkerChannelState
unfolding disarm
clear_eviction_timer s ref =
    put_record (disarm s (s.heap ref).eviction_timer) ref
      (record (s.heap ref) { eviction_timer = none })

unfoldable pub clear_idle_timer : WorkerChannelState → ℕ → WorkerChannelState
unfolding disarm
clear_idle_timer s ref =
    put_record (disarm s (s.heap ref).idle_timer) ref (record (s.heap ref) { idle_timer = none })

abbrev pub put_wire : WorkerChannelState → Wire → WorkerChannelState
put_wire s w = record s { hub = record s.hub { wire = w } }

-- `record.downstream.end()`, if there is one.
abbrev pub end_response : WorkerChannelState → Option ℕ → WorkerChannelState
end_response s none = s
end_response s (some res) = put_wire s (end_all s.hub.wire (res ∷ []))

unfoldable pub end_downstream : WorkerChannelState → ℕ → WorkerChannelState
unfolding clear_liveness_timer clear_eviction_timer clear_idle_timer end_all
end_downstream s ref =
    let cleared = clear_idle_timer (clear_eviction_timer (clear_liveness_timer s ref) ref) ref in
    end_response cleared (cleared.heap ref).downstream

unfoldable pub schedule_eviction : WorkerChannelState → String → ℕ → WorkerChannelState
schedule_eviction s session_id ref =
    put_record (arm s (eviction session_id ref)) ref
      (record (s.heap ref) { eviction_timer = some s.next_timer })

unfoldable pub arm_idle_timer : WorkerChannelState → String → ℕ → WorkerChannelState
arm_idle_timer s session_id ref = elim (s.heap ref).idle_timer [
  | some timer ↦ s
  | none ↦
      put_record (arm s (idle session_id ref)) ref
        (record (s.heap ref) { idle_timer = some s.next_timer })
]

abbrev pub reconcile_idle_of :
    WorkerChannelState → String → ℕ → SessionActivity → WorkerChannelState
reconcile_idle_of s session_id ref is_idle = arm_idle_timer s session_id ref
reconcile_idle_of s session_id ref is_running = clear_idle_timer s ref
reconcile_idle_of s session_id ref (awaits detail) = clear_idle_timer s ref

unfoldable pub reconcile_idle_timer : WorkerChannelState → String → Session → WorkerChannelState
unfolding arm_idle_timer clear_idle_timer
reconcile_idle_timer s session_id session = elim (get session_id s.worker_channels) [
  | none ↦ s
  | some ref ↦ reconcile_idle_of s session_id ref session.activity
]

unfoldable pub reap_worker_channel : WorkerChannelState → String → WorkerChannelState
unfolding end_downstream
reap_worker_channel s session_id = elim (get session_id s.worker_channels) [
  | none ↦ s
  | some ref ↦
      let ended = end_downstream s ref in
      record ended { worker_channels = delete session_id ended.worker_channels }
]

unfoldable pub close_worker_channels : List ℕ → WorkerChannelState → WorkerChannelState
unfolding end_downstream
close_worker_channels [] s = s
close_worker_channels (ref ∷ refs) s =
    let ended = end_downstream s ref in
    close_worker_channels refs
      (put_record ended ref (record (ended.heap ref) { downstream = none }))

unfoldable pub has_live_worker_channel : WorkerChannelState → String → Bool
has_live_worker_channel s session_id = elim (get session_id s.worker_channels) [
  | none ↦ false
  | some ref ↦ elim (s.heap ref).downstream [ none ↦ false | some res ↦ true ]
]

-- `map.get(sessionId) === record`.
abbrev pub is_current_record : WorkerChannelState → String → ℕ → Bool
is_current_record s session_id ref = elim (get session_id s.worker_channels) [
  | none ↦ false
  | some r ↦ r == ref
]

-- `record.downstream === res`.
abbrev pub same_response : Option ℕ → ℕ → Bool
same_response none res = false
same_response (some r) res = r == res

-- The two notifications to the UI, with the policy of each class.
unfoldable pub idle_event : String → ℕ → Json
idle_event session_id threshold_ms = obj (
    field "type" (str "ccctl_session_idle") (
      field "session_id" (str session_id) (
        field "idle_threshold_ms" (num (nonneg threshold_ms)) (
          field "notification_class" (str "informational") (
            field "urgency" (str "low")
              (field "renudge" (bool false) (field "batchable" (bool true) end)))))))

unfoldable pub needs_input_event : String → String → Json
needs_input_event session_id detail = obj (
    field "type" (str "ccctl_session_needs_input") (
      field "session_id" (str session_id) (
        field "detail" (str detail) (
          field "notification_class" (str "blocking") (
            field "urgency" (str "high")
              (field "renudge" (bool true) (field "batchable" (bool false) end)))))))

module _ (env : Environment) where
  unfoldable pub broadcast : WorkerChannelState → String → Json → WorkerChannelState
  broadcast s session_id payload =
      let told = broadcast_event env.stringify s.hub.event_relays s.hub.wire session_id payload in
      record s { hub = record s.hub { event_relays = told.0; wire = told.1 } }

  -- The text of a frame for the worker.
  unfoldable pub client_event_frame : ℕ → String → Json → String
  client_event_frame seq uuid payload =
      "event: client_event\nid: "
      +++ (decimal seq
          +++ ("\ndata: "
              +++ (env.stringify (
                    obj (
                      field "sequence_num" (num (nonneg seq)) (
                        field "event_id" (str uuid)
                          (field "event_type" (str "message") (field "payload" payload end)))))
                  +++ "\n\n")))

  unfoldable pub write_client_event_frame : WorkerChannelState → ℕ → Json → WorkerChannelState
  unfolding client_event_frame
  write_client_event_frame s ref payload = elim (s.heap ref).downstream [
    | none ↦ s
    | some res ↦
        let seq = (s.heap ref).next_seq in
        let wire = write s.hub.wire res (client_event_frame seq (env.uuid s.uuids) payload) in
        put_record (record (put_wire s wire) { uuids = s.uuids + 1 }) ref
          (record (s.heap ref) { next_seq = seq + 1 })
  ]

  -- `none` is the error that no worker is there.
  unfoldable pub push_client_event : WorkerChannelState → String → Json → Option WorkerChannelState
  unfolding clear_idle_timer write_client_event_frame
  push_client_event s session_id payload = elim (get session_id s.worker_channels) [
    | none ↦ none
    | some ref ↦ elim (s.heap ref).downstream [
      | none ↦ none
      | some res ↦ some (write_client_event_frame (clear_idle_timer s ref) ref payload)
    ]
  ]

  unfoldable pub write_liveness_frame : WorkerChannelState → ℕ → ℕ → WorkerChannelState
  unfolding write_client_event_frame
  write_liveness_frame s ref res =
      if not (same_response (s.heap ref).downstream res) || any (λ r. r == res) s.hub.wire.ended
      then s
      else write_client_event_frame s ref (obj (field "type" (str "ccctl_liveness") end))

  unfoldable pub reconcile_needs_input :
      WorkerChannelState → String → Session → Session → ℕ → WorkerChannelState
  unfolding broadcast needs_input_event
  reconcile_needs_input s session_id prev next now =
      if is_input_awaited prev.activity then s else elim next.activity [
        | is_running ↦ s
        | is_idle ↦ s
        | awaits detail ↦
            if is_session_stale next now env.session_eviction_grace_ms
            then s
            else broadcast s session_id (needs_input_event session_id detail)
      ]

  -- What is left of `fireIdleEvent` once the timer is gone from the record.
  unfoldable pub notify_idle : WorkerChannelState → String → ℕ → ℕ → WorkerChannelState
  unfolding broadcast idle_event
  notify_idle s session_id ref now =
      if not (is_current_record s session_id ref) then s else elim (get session_id s.hub.sessions) [
        | none ↦ s
        | some session ↦ elim session.activity [
          | is_running ↦ s
          | awaits detail ↦ s
          | is_idle ↦
              if is_session_stale session now env.session_eviction_grace_ms
              then s
              else broadcast s session_id (idle_event session_id env.session_idle_threshold_ms)
        ]
      ]

  unfoldable pub fire_idle_event : WorkerChannelState → String → ℕ → ℕ → WorkerChannelState
  unfolding notify_idle
  fire_idle_event s session_id ref now =
      notify_idle (put_record s ref (record (s.heap ref) { idle_timer = none })) session_id ref now

  -- The session ends, and its channel with it.
  unfoldable pub evict : WorkerChannelState → String → WorkerChannelState
  unfolding close_session reap_worker_channel
  evict s session_id =
      reap_worker_channel (record s { hub = (close_session env.stringify s.hub session_id).1 })
        session_id

  -- What is left of `considerEviction` once the timer is gone from the record.
  unfoldable pub decide_eviction : WorkerChannelState → String → ℕ → ℕ → WorkerChannelState
  unfolding schedule_eviction evict
  decide_eviction s session_id ref now =
      if not (is_current_record s session_id ref) then s else elim (s.heap ref).downstream [
        | some res ↦ s
        | none ↦ elim (get session_id s.hub.sessions) [
          | none ↦ s
          | some session ↦
              if not (is_session_stale session now env.session_eviction_grace_ms)
              then schedule_eviction s session_id ref
              else evict s session_id
        ]
      ]

  unfoldable pub consider_eviction : WorkerChannelState → String → ℕ → ℕ → WorkerChannelState
  unfolding decide_eviction
  consider_eviction s session_id ref now =
      decide_eviction (put_record s ref (record (s.heap ref) { eviction_timer = none })) session_id
        ref now
