-- ===== src/Server/Stop/Handler.antt =====
-- The endpoint of packages/server/src/ui-session-stop.ts. The body, read and parsed, is an argument. The log
-- of a failure is left out.
use Prim.Native.String.{◌++◌ as ◌+++◌}
use ccctl.Base.{ℕ, String, Bool, false, not, none, some, str_eq, if◌then◌else◌}
use ccctl.Core.Json.{Json, str, obj, field, end}
use ccctl.Server.Body.{ReadJsonBodyResult, ok, failed}
use ccctl.Server.Close.{status_name}
use ccctl.Server.Stop.{
  SessionStopError, malformed_request, stop_failed, code_name, stop_failure_status, raised,
  StopOutcomeWire, was_stopped, already_exited, StopEnd, ended, refused, broke, SessionStopState,
  parse_stop_options, stop_session,
}

pub record StopReply : Type 0 where
  pub status : ℕ
  pub body : Json

abbrev pub stop_outcome_name : StopOutcomeWire → String
stop_outcome_name was_stopped = "stopped"
stop_outcome_name already_exited = "already-exited"

abbrev pub failure_body : String → String → Json
failure_body message code = obj (field "error" (str message) (field "code" (str code) end))

unfoldable pub write_stop_failure : SessionStopError → StopReply
unfolding stop_failure_status code_name
write_stop_failure error = record {
  status = stop_failure_status error.code;
  body = failure_body error.message (code_name error.code);
}

unfoldable pub stop_reply : String → StopEnd → StopReply
unfolding write_stop_failure
stop_reply session_id (ended outcome session) = record {
  status = 200;
  body = obj (
      field "sessionId" (str session_id) (
        field "outcome" (str (stop_outcome_name outcome))
          (field "status" (str (status_name session.status)) end)));
}
stop_reply session_id (refused error) = write_stop_failure error
stop_reply session_id (broke failure) =
    write_stop_failure (raised stop_failed "ccctl: the session's terminal could not be torn down")

-- The answer, the state after it, and whether `close()` was called on the surface.
unfoldable pub handle_session_stop :
    (Json → String)
    → String
    → SessionStopState
    → SessionStopState
    → String
    → ReadJsonBodyResult
    → StopReply × SessionStopState × Bool
unfolding stop_session stop_reply parse_stop_options write_stop_failure
handle_session_stop stringify method s later session_id body =
    if not (str_eq method "POST")
    then (
      record {
        status = 405;
        body = obj (
            field "error" (str ("ccctl: " +++ (method +++ " not allowed on the session stop path")))
              end);
      },
      s,
      false,
    )
    else elim body [
      | failed status message ↦
          (record { status = status; body = failure_body message "malformed-request" }, s, false)
      | ok value ↦ elim (parse_stop_options value) [
        | none ↦ (
          write_stop_failure (
              raised malformed_request
                "ccctl: malformed stop body (expected JSON `{}` or `{ force: boolean }`)"),
          s,
          false,
        )
        | some force ↦
            let (result, after, closed) = stop_session stringify s later session_id force in
            (stop_reply session_id result, after, closed)
      ]
    ]
