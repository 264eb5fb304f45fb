-- ===== src/Server/Launch/Handler.antt =====
-- The endpoint of packages/server/src/ui-session-launch.ts. The body, read and parsed, is an argument, and the log of a
-- failure is left out.
use Prim.Native.String.{◌++◌ as ◌+++◌}
use mathlib.Core.Logic.{◌⊎◌, inl, inr}
use ccctl.Base.{ℕ, String, not, none, some, str_eq, if◌then◌else◌}
use ccctl.Core.Json.{Json, bool, str, obj, field, end}
use ccctl.Server.Body.{ReadJsonBodyResult, ok, failed}
use ccctl.Server.Release.{TerminalAttachment, LaunchedSession}
use ccctl.Server.Launcher.{
  SessionLaunchOptions, LaunchFailureCode, launcher_absent, at_capacity, malformed_request,
  invalid_cwd, worker_not_found, backend_unavailable, spawn_failed, launch_code_name,
  SessionLaunchError, Thrown, session_launch_error_of,
}
use ccctl.Server.Launch.{parse_launch_options}

unfoldable pub launch_failure_status : LaunchFailureCode → ℕ
launch_failure_status launcher_absent = 501
launch_failure_status at_capacity = 429
launch_failure_status malformed_request = 400
launch_failure_status invalid_cwd = 400
launch_failure_status worker_not_found = 502
launch_failure_status backend_unavailable = 502
launch_failure_status spawn_failed = 502

pub record LaunchReply : Type 0 where
  pub status : ℕ
  pub body : Json

unfoldable pub to_launch_accepted_wire : String → TerminalAttachment → Json
to_launch_accepted_wire session_id attachment = obj (
    field "sessionId" (str session_id)
      (field "attachable" (bool attachment.attachable) (field "hint" (str attachment.hint) end)))

abbrev pub launch_failure_body : String → String → Json
launch_failure_body message code = obj (field "error" (str message) (field "code" (str code) end))

unfoldable pub write_launch_failure : SessionLaunchError → LaunchReply
unfolding launch_failure_status launch_code_name
write_launch_failure error = record {
  status = launch_failure_status error.code;
  body = launch_failure_body error.message (launch_code_name error.code);
}

unfoldable pub to_launch_failure : Thrown → SessionLaunchError
unfolding session_launch_error_of
to_launch_failure t = elim (session_launch_error_of t) [
  | some error ↦ error
  | none ↦ record {
    code = spawn_failed;
    message = "ccctl: the session terminal could not be spawned";
  }
]

-- Up to `launchSession`: the answer, or the options to launch with.
unfoldable pub handle_session_launch :
    String → ReadJsonBodyResult → LaunchReply ⊎ SessionLaunchOptions
unfolding parse_launch_options write_launch_failure
handle_session_launch method body =
    if not (str_eq method "POST")
    then inl (record {
      status = 405;
      body =
          obj
            (field "error" (str ("ccctl: " +++ (method +++ " not allowed on /api/sessions"))) end);
    })
    else elim body [
      | failed status message ↦
          inl (record { status = status; body = launch_failure_body message "malformed-request" })
      | ok value ↦ elim (parse_launch_options value) [
        | some options ↦ inr options
        | none ↦ inl (
            write_launch_failure (record {
              code = malformed_request;
              message =
                  "ccctl: malformed launch body (expected `{ cwd, permissionMode, project?, initialPrompt? }`)";
            }))
      ]
    ]

-- The answer once `launchSession` has settled.
unfoldable pub launch_reply : Thrown ⊎ (String × LaunchedSession) → LaunchReply
unfolding to_launch_accepted_wire to_launch_failure write_launch_failure
launch_reply (inl t) = write_launch_failure (to_launch_failure t)
launch_reply (inr (session_id, surface)) = record {
  status = 201;
  body = to_launch_accepted_wire session_id surface.attachment;
}
