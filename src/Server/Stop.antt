-- ===== src/Server/Stop.antt =====
-- packages/server/src/ui-session-stop.ts: a client ends a session that this server launched. The stores of
-- session-close.ts, worker-channel.ts and pending-launch.ts are one here, and the timers of the pending
-- launches are apart from those of the channels. While the surface is asked, other requests may run: the
-- state in which the stop goes on is an argument.
pub mod Handler
pub mod Outcome
pub mod Forced
use Prim.Native.String.{◌++◌ as ◌+++◌}
use mathlib.Core.Logic.{◌⊎◌, inl, inr}
use ccctl.Base.{
  ℕ, String, Bool, true, false, not, List, [], ◌∷◌, Option, none, some, str_eq, if◌then◌else◌,
}
use ccctl.Base.Dict.{Dict, get, delete, has}
use ccctl.Core.Json.{Json, Fields, bool, null, str, obj, field, end, entries}
use ccctl.Core.Session.{Session}
use ccctl.Server.Close.{status_name, close_session}
use ccctl.Server.Release.{
  SurfaceLiveness, LaunchedSession, leave_running, no_op, tear_down, StopOutcome, StopFailure,
  StopResult, stopped, threw, stop_launched_session,
}
use ccctl.Server.Pending.{PendingLaunch, PendingLaunchState, consume_pending_launch}
use ccctl.Server.Worker.{WorkerChannelState, reap_worker_channel}
use ccctl.Server.Body.{ReadJsonBodyResult, ok, failed}

pub data StopFailureCode : Type 0 where
  unknown_session no_surface ambiguous_surface taken_over liveness_unknown liveness_indeterminate
        malformed_request stop_failed :
      StopFailureCode

unfoldable pub code_name : StopFailureCode → String
code_name unknown_session = "unknown-session"
code_name no_surface = "no-surface"
code_name ambiguous_surface = "ambiguous-surface"
code_name taken_over = "taken-over"
code_name liveness_unknown = "liveness-unknown"
code_name liveness_indeterminate = "liveness-indeterminate"
code_name malformed_request = "malformed-request"
code_name stop_failed = "stop-failed"

unfoldable pub stop_failure_status : StopFailureCode → ℕ
stop_failure_status unknown_session = 404
stop_failure_status no_surface = 409
stop_failure_status ambiguous_surface = 409
stop_failure_status taken_over = 409
stop_failure_status liveness_unknown = 409
stop_failure_status liveness_indeterminate = 409
stop_failure_status malformed_request = 400
stop_failure_status stop_failed = 502

pub record SessionStopError : Type 0 where
  pub code : StopFailureCode
  pub message : String

abbrev pub unknown_session_reason : String → String
unknown_session_reason session_id = "ccctl: no session " +++ session_id

abbrev pub no_surface_reason : String → String
no_surface_reason session_id =
    "ccctl: session "
    +++ (session_id
        +++ " was not launched by this server, so it holds no handle to that session's terminal and cannot stop it. End it at the terminal it is running in, or steer it with an `interrupt`.")

abbrev pub taken_over_reason : String → String → String
taken_over_reason session_id hint =
    "ccctl: session "
    +++ (session_id
        +++ (" has been taken over — it is being driven at a terminal, and this server will not kill a session someone is working in. Reach it with `"
            +++ (hint +++ "`, or re-send this stop with `{ force: true }` if you are sure.")))

abbrev pub liveness_unknown_reason : String → String
liveness_unknown_reason session_id =
    "ccctl: session "
    +++ (session_id
        +++ "'s terminal could not be read — its backend could not reach the host that would know, so this server cannot tell whether the surface is still there or who has it, and will not kill what it cannot see. Forcing would not help: the kill would travel the same unreachable path. If the backend itself is gone, the terminal went with it.")

abbrev pub liveness_indeterminate_reason : String → String
liveness_indeterminate_reason session_id =
    "ccctl: session "
    +++ (session_id
        +++ "'s terminal could not be read — its backend reached the host but got no usable answer back, so this server cannot tell whether the surface is still there or who has it, and will not kill what it cannot see without being asked to. The host itself is reachable, so a forced stop would really reach the terminal: re-send this stop with `{ force: true }` if you are sure.")

abbrev pub ambiguous_surface_reason : String → String
ambiguous_surface_reason session_id =
    "ccctl: session "
    +++ (session_id
        +++ " was launched alongside another in the same directory under the same permission mode, and a worker has since registered from one of them — so this server cannot tell which of those terminals is which, and killing this one may kill the other session's live worker. Not even `force` overrides this: it authorizes stopping the session you named, not one you did not. End this terminal by hand.")

abbrev pub unexplained_refusal_reason : String → String
unexplained_refusal_reason session_id =
    "ccctl: session " +++ (session_id +++ " could not be stopped")

abbrev pub raised : StopFailureCode → String → SessionStopError
raised code message = record { code = code; message = message }

unfoldable pub refusal : String → SurfaceLiveness → String → SessionStopError
refusal session_id SurfaceLiveness.alive_server_owned hint =
    raised stop_failed (unexplained_refusal_reason session_id)
refusal session_id SurfaceLiveness.taken_over hint =
    raised taken_over (taken_over_reason session_id hint)
refusal session_id SurfaceLiveness.exited hint =
    raised stop_failed (unexplained_refusal_reason session_id)
refusal session_id SurfaceLiveness.host_unreachable hint =
    raised liveness_unknown (liveness_unknown_reason session_id)
refusal session_id SurfaceLiveness.surface_indeterminate hint =
    raised liveness_indeterminate (liveness_indeterminate_reason session_id)

-- The options are the one flag `force`.
unfoldable pub parse_stop_options : Json → Option Bool
parse_stop_options (obj o) = elim (get "force" (entries o)) [
  | none ↦ some false
  | some (bool force) ↦ some force
  | some _ ↦ none
]
parse_stop_options null = none
parse_stop_options _ = none

pub record SessionStopState : Type 0 where
  pub channels : WorkerChannelState
  pub pending_launches : Dict PendingLaunch
  pub launched_surfaces : Dict LaunchedSession
  pub armed : List ℕ
  pub next_timer : ℕ

-- The part of the store that pending-launch.ts works on, and the store with that part replaced.
abbrev pub pending_part : SessionStopState → PendingLaunchState
pending_part s = record {
  pending_launches = s.pending_launches;
  sessions = s.channels.hub.sessions;
  launched_surfaces = s.launched_surfaces;
  event_relays = s.channels.hub.event_relays;
  wire = s.channels.hub.wire;
  armed = s.armed;
  next_timer = s.next_timer;
}

abbrev pub put_pending_part : SessionStopState → PendingLaunchState → SessionStopState
put_pending_part s p = record {
  channels = record s.channels {
    hub = record s.channels.hub {
      sessions = p.sessions;
      event_relays = p.event_relays;
      wire = p.wire;
    };
  };
  pending_launches = p.pending_launches;
  launched_surfaces = p.launched_surfaces;
  armed = p.armed;
  next_timer = p.next_timer;
}

abbrev pub forget_surface : SessionStopState → String → SessionStopState
forget_surface s session_id = record s { launched_surfaces = delete session_id s.launched_surfaces }

unfoldable pub consume : SessionStopState → String → SessionStopState
unfolding consume_pending_launch
consume s session_id = put_pending_part s (consume_pending_launch (pending_part s) session_id).1

unfoldable pub reap : SessionStopState → String → SessionStopState
unfolding reap_worker_channel
reap s session_id = record s { channels = reap_worker_channel s.channels session_id }

pub data StopOutcomeWire : Type 0 where
  was_stopped already_exited : StopOutcomeWire

-- What `stopSession` ends with: the session, its own error, or an error of the surface.
pub data StopEnd : Type 0 where
  ended : StopOutcomeWire → Session → StopEnd
  refused : SessionStopError → StopEnd
  broke : StopFailure → StopEnd

abbrev pub holds_live : SessionStopState → String → Bool
holds_live s session_id = elim (get session_id s.pending_launches) [
  | none ↦ false
  | some p ↦ p.may_hold_live_worker
]

-- The checks before the surface is asked anything.
unfoldable pub stop_check : SessionStopState → String → SessionStopError ⊎ LaunchedSession
stop_check s session_id =
    if not (has session_id s.channels.hub.sessions)
    then inl (raised unknown_session (unknown_session_reason session_id))
    else elim (get session_id s.launched_surfaces) [
      | none ↦ inl (raised no_surface (no_surface_reason session_id))
      | some launched ↦
          if holds_live s session_id
          then inl (raised ambiguous_surface (ambiguous_surface_reason session_id))
          else inr launched
    ]

module _ (stringify : Json → String) where
  -- The session, its surface, its pending launch and its channel go together.
  unfoldable pub forget_session :
      SessionStopState → String → StopOutcomeWire → StopEnd × SessionStopState
  unfolding consume reap close_session
  forget_session s session_id outcome =
      let reaped = reap (consume (forget_surface s session_id) session_id) session_id in
      let closed = close_session stringify reaped.channels.hub session_id in
      let after : SessionStopState = record reaped {
        channels = record reaped.channels { hub = closed.1 };
      } in
      elim closed.0 [
        | none ↦ (refused (raised unknown_session (unknown_session_reason session_id)), after)
        | some session ↦ (ended outcome session, after)
      ]

  unfoldable pub finish_stop :
      SessionStopState → String → LaunchedSession → StopResult → StopEnd × SessionStopState
  unfolding forget_session refusal
  finish_stop s session_id launched (threw failure) = (broke failure, s)
  finish_stop s session_id launched (stopped o) = elim o.disposition [
    | leave_running ↦ (refused (refusal session_id o.liveness launched.attachment.hint), s)
    | tear_down ↦ forget_session s session_id was_stopped
    | no_op ↦ forget_session s session_id already_exited
  ]

  -- The end of the stop, the state after it, and whether `close()` was called on the surface.
  unfoldable pub stop_session :
      SessionStopState → SessionStopState → String → Bool → StopEnd × SessionStopState × Bool
  stop_session s later session_id force = elim (stop_check s session_id) [
    | inl error ↦ (refused error, s, false)
    | inr launched ↦
        let asked = stop_launched_session launched force in
        let (result, after) = finish_stop later session_id launched asked.0 in
        (result, after, asked.1)
  ]
