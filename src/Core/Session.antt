-- ===== src/Core/Session.antt =====
-- The session model of packages/core/src/index.ts: its lifecycle status, the worker's activity, the
-- heartbeat, and the transitions between them. Times are milliseconds, and an argument of each call.
pub mod Activity
pub mod Lifecycle
use ccctl.Base.{
  ℕ, ◌+◌, ◌-◌, ◌≤◌, String, Bool, true, false, ◌||◌, ◌&&◌, not, List, [], ◌∷◌, Option, none, some,
  ltb, leb, str_eq, if◌then◌else◌,
}
use ccctl.Base.Dict.{Dict, get}
use ccctl.Core.Json.{Json, str, num, nonneg, obj, as_object, max_safe_integer}
use ccctl.Core.Detail.{displayable_detail, max_requires_action_detail_length}
use ccctl.Core.Frame.{ControlFrame}

pub data SessionStatus : Type 0 where
  registering connecting ready busy closed errored : SessionStatus

pub data WorkerStatus : Type 0 where
  running requires_action idle : WorkerStatus

pub data SessionActivity : Type 0 where
  is_running is_idle : SessionActivity
  awaits : (detail : String) → SessionActivity

pub data PermissionMode : Type 0 where
  default accept_edits bypass_permissions plan dont_ask auto : PermissionMode

pub record Session : Type 0 where
  pub id : String
  pub status : SessionStatus
  pub activity : SessionActivity
  pub auto_resolves_permissions : Bool
  pub created_at : ℕ
  pub last_activity_at : ℕ
  pub last_heartbeat_at : ℕ

unfoldable pub is_non_prompting : PermissionMode → Bool
is_non_prompting accept_edits = true
is_non_prompting bypass_permissions = true
is_non_prompting dont_ask = true
is_non_prompting auto = true
is_non_prompting default = false
is_non_prompting plan = false

unfoldable pub create_session : String → PermissionMode → ℕ → Session
unfolding is_non_prompting
create_session id mode now = record {
  id = id;
  status = connecting;
  activity = is_idle;
  auto_resolves_permissions = is_non_prompting mode;
  created_at = now;
  last_activity_at = now;
  last_heartbeat_at = now;
}

unfoldable pub create_registering_session : String → PermissionMode → ℕ → Session
unfolding create_session
create_registering_session id mode now = record (create_session id mode now) {
  status = registering;
}

-- `isWorkerStatus`, as a parser of the status's name.
unfoldable pub worker_status_of : Json → Option WorkerStatus
worker_status_of (str s) =
    if str_eq s "running"
    then some running
    else if str_eq s "requires_action"
    then some requires_action
    else if str_eq s "idle"
    then some idle
    else none
worker_status_of (obj _) = none
worker_status_of _ = none

pub record StatusEvent : Type 0 where
  pub status : WorkerStatus
  pub detail : Option Json
  pub sequence_num : Option Json

-- `value === "..."` on a property that may be missing.
abbrev pub is_text : Option Json → String → Bool
is_text (some (str s)) t = str_eq s t
is_text (some (obj _)) t = false
is_text (some _) t = false
is_text none t = false

-- `isWorkerStatusEvent`, with what the event's payload carries. An array has no property `status`.
unfoldable pub worker_status_event : ControlFrame → Option StatusEvent
worker_status_event frame =
    if is_text (get "type" frame) "control_event" && is_text (get "subtype" frame) "worker_status"
    then (elim (get "payload" frame) [
      | none ↦ none
      | some v ↦ elim (as_object v) [
        | none ↦ none
        | some payload ↦ elim (get "status" payload) [
          | none ↦ none
          | some s ↦ elim (worker_status_of s) [
            | none ↦ none
            | some status ↦ some (record {
              status = status;
              detail = get "detail" payload;
              sequence_num = get "sequence_num" payload;
            })
          ]
        ]
      ]
    ])
    else none

-- A safe integer that is not negative.
unfoldable pub as_worker_status_sequence : Option Json → Option ℕ
as_worker_status_sequence (some (num (nonneg n))) = if leb n max_safe_integer then some n else none
as_worker_status_sequence (some (num _)) = none
as_worker_status_sequence (some _) = none
as_worker_status_sequence none = none

unfoldable pub worker_status_sequence_from_frame : ControlFrame → Option ℕ
worker_status_sequence_from_frame frame = elim (worker_status_event frame) [
  | none ↦ none
  | some e ↦ as_worker_status_sequence e.sequence_num
]

unfoldable pub is_stale_worker_status_sequence : Option ℕ → Option ℕ → Bool
is_stale_worker_status_sequence (some n) (some highest) = ltb n highest
is_stale_worker_status_sequence (some n) none = false
is_stale_worker_status_sequence none highest = false

abbrev pub default_requires_action_detail : String
default_requires_action_detail = "Awaiting input."

unfoldable pub requires_action_detail : Option Json → String
requires_action_detail detail = elim (displayable_detail detail max_requires_action_detail_length) [
  | none ↦ default_requires_action_detail
  | some d ↦ d
]

unfoldable pub session_activity_from_status : WorkerStatus → Option Json → SessionActivity
session_activity_from_status running detail = is_running
session_activity_from_status requires_action detail = awaits (requires_action_detail detail)
session_activity_from_status idle detail = is_idle

unfoldable pub is_input_awaited : SessionActivity → Bool
is_input_awaited (awaits d) = true
is_input_awaited is_running = false
is_input_awaited is_idle = false

-- `now - lastHeartbeatAt > staleAfterMs`, where the difference may be negative.
unfoldable pub is_session_stale : Session → ℕ → ℕ → Bool
is_session_stale s now stale_after_ms = ltb (s.last_heartbeat_at + stale_after_ms) now

abbrev captured_detail_of : SessionActivity → WorkerStatus → Option String
captured_detail_of (awaits d) requires_action = some d
captured_detail_of (awaits d) _ = none
captured_detail_of is_running _ = none
captured_detail_of is_idle _ = none

unfoldable pub captured_requires_action_detail : Session → WorkerStatus → Option String
captured_requires_action_detail s status = captured_detail_of s.activity status

-- `displayableDetail(detail) ?? capturedRequiresActionDetail(session, status)`
abbrev resolved_detail : Option String → Option String → Option Json
resolved_detail (some d) captured = some (str d)
resolved_detail none (some d) = some (str d)
resolved_detail none none = none

unfoldable pub apply_worker_status : Session → WorkerStatus → Option Json → ℕ → Session
unfolding session_activity_from_status captured_requires_action_detail
apply_worker_status s status detail now =
    let resolved =
      resolved_detail (displayable_detail detail max_requires_action_detail_length)
        (captured_requires_action_detail s status) in
    record s { activity = session_activity_from_status status resolved; last_activity_at = now }

unfoldable pub apply_worker_status_frame : Session → ControlFrame → ℕ → Session
apply_worker_status_frame s frame now = elim (worker_status_event frame) [
  | none ↦ s
  | some e ↦ apply_worker_status s e.status e.detail now
]

unfoldable pub record_heartbeat : Session → ℕ → Session
record_heartbeat s now = record s { last_heartbeat_at = now }

abbrev ready_from : SessionStatus → SessionStatus
ready_from connecting = ready
ready_from s = s

unfoldable pub mark_session_ready : Session → Session
mark_session_ready s = record s { status = ready_from s.status }

abbrev closed_from : SessionStatus → SessionStatus
closed_from closed = closed
closed_from errored = errored
closed_from s = closed

unfoldable pub mark_session_closed : Session → Session
mark_session_closed s = record s { status = closed_from s.status }
