-- ===== src/Web/Stop.antt =====
-- packages/web-ui/src/stop.js: the body of a stop request, and what the client makes of its answer.
use Prim.Native.String.{◌++◌ as ◌+++◌}
use ccctl.Base.{ℕ, String, Bool, true, ◌&&◌, ◌||◌, str_eq, if◌then◌else◌}
use ccctl.Core.Json.{Json, bool, obj, field, end}
use ccctl.Core.Enrichment.{decimal}
use ccctl.Web.Fields.{payload_field, trimmed_value}

unfoldable pub stop_request : Bool → Json
stop_request force = if force then obj (field "force" (bool true) end) else obj end

unfoldable pub stop_failure_code : Json → String
unfolding payload_field trimmed_value
stop_failure_code payload =
    let code = trimmed_value (payload_field "code" payload) in
    if str_eq code "" then "unknown" else code

-- `currentSessionId` is a text when it equals `sessionId`, which is one.
unfoldable pub keep_stop_control_disabled : Bool → String → String → Bool
keep_stop_control_disabled stopped current_session_id session_id =
    stopped && str_eq current_session_id session_id

unfoldable pub is_forceable : String → Bool
is_forceable code = str_eq code "taken-over" || str_eq code "liveness-indeterminate"

pub record StopFailureView : Type 0 where
  pub code : String
  pub message : String
  pub forceable : Bool

unfoldable pub stop_failure : ℕ → Json → StopFailureView
unfolding payload_field trimmed_value stop_failure_code is_forceable decimal
stop_failure status payload =
    let error = trimmed_value (payload_field "error" payload) in
    let code = stop_failure_code payload in
    record {
      code = code;
      message =
          if str_eq error ""
          then "ccctl: stop failed (HTTP " +++ (decimal status +++ ")")
          else error;
      forceable = is_forceable code;
    }

unfoldable pub describe_stop_accepted : Json → String
unfolding payload_field trimmed_value
describe_stop_accepted payload =
    let session_id = trimmed_value (payload_field "sessionId" payload) in
    let outcome = trimmed_value (payload_field "outcome" payload) in
    let status = trimmed_value (payload_field "status" payload) in
    let name = if str_eq session_id "" then "(unknown session)" else session_id in
    let head =
      if str_eq outcome "stopped"
      then "stopped " +++ name
      else if str_eq outcome "already-exited"
      then name +++ " had already exited"
      else name +++ " is stopped" in
    if str_eq status "" then head else head +++ (" — " +++ status)
