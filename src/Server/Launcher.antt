-- ===== src/Server/Launcher.antt =====
-- packages/server/src/session-launcher.ts: what a backend is asked to launch, what it answers, and the codes of its
-- failures. A backend is a parameter wherever it is used.
pub mod Fallback
use ccctl.Base.{String, Option, none, some, str_eq, if◌then◌else◌}
use ccctl.Core.Session.{PermissionMode}
use ccctl.Server.Release.{LaunchedSession}

pub record SessionLaunchOptions : Type 0 where
  pub cwd : String
  pub permission_mode : PermissionMode
  pub project : Option String
  pub initial_prompt : Option String
  pub settings_path : Option String

pub data LaunchFailureCode : Type 0 where
  launcher_absent at_capacity malformed_request invalid_cwd worker_not_found backend_unavailable
        spawn_failed :
      LaunchFailureCode

unfoldable pub launch_code_name : LaunchFailureCode → String
launch_code_name launcher_absent = "launcher-absent"
launch_code_name at_capacity = "at-capacity"
launch_code_name malformed_request = "malformed-request"
launch_code_name invalid_cwd = "invalid-cwd"
launch_code_name worker_not_found = "worker-not-found"
launch_code_name backend_unavailable = "backend-unavailable"
launch_code_name spawn_failed = "spawn-failed"

-- `isLaunchFailureCode`, as a parser of the code's name.
unfoldable pub launch_failure_code_of : String → Option LaunchFailureCode
launch_failure_code_of s =
    if str_eq s "launcher-absent"
    then some launcher_absent
    else if str_eq s "at-capacity"
    then some at_capacity
    else if str_eq s "malformed-request"
    then some malformed_request
    else if str_eq s "invalid-cwd"
    then some invalid_cwd
    else if str_eq s "worker-not-found"
    then some worker_not_found
    else if str_eq s "backend-unavailable"
    then some backend_unavailable
    else if str_eq s "spawn-failed"
    then some spawn_failed
    else none

pub record SessionLaunchError : Type 0 where
  pub code : LaunchFailureCode
  pub message : String

-- What a launch is rejected with: an `Error`, with its `code` if that is a text, or any other value.
pub data Thrown : Type 0 where
  an_error : (code : Option String) (message : String) → Thrown
  no_error : Thrown

-- `isSessionLaunchError`, with the error that it finds.
unfoldable pub session_launch_error_of : Thrown → Option SessionLaunchError
unfolding launch_failure_code_of
session_launch_error_of no_error = none
session_launch_error_of (an_error none message) = none
session_launch_error_of (an_error (some name) message) = elim (launch_failure_code_of name) [
  | none ↦ none
  | some code ↦ some (record { code = code; message = message })
]

pub data LaunchResult : Type 0 where
  launched : LaunchedSession → LaunchResult
  rejected : Thrown → LaunchResult

-- One call of `launch`.
abbrev pub SessionLauncher : Type 0
SessionLauncher = SessionLaunchOptions → LaunchResult
