-- ===== src/Web/Launch.antt =====
-- packages/web-ui/src/launch.js: the body of a launch request, and what the client makes of its answer.
pub mod Accepted
use Prim.Native.String.{◌++◌ as ◌+++◌}
use ccctl.Base.{ℕ, String, Bool, Option, none, some, str_eq, if◌then◌else◌}
use ccctl.Core.Json.{Json, Fields, str, obj, field, end}
use ccctl.Core.Enrichment.{decimal}
use ccctl.Web.Fields.{payload_field, trimmed_value}

-- A field of the form, left out of the body if it is blank.
abbrev pub optional_field : String → String → Fields → Fields
optional_field key value rest = if str_eq value "" then rest else field key (str value) rest

abbrev pub launch_body : String → String → String → Json
launch_body cwd project initial_prompt = obj (
    field "cwd" (str cwd) (
      field "permissionMode" (str "default")
        (optional_field "project" project (optional_field "initialPrompt" initial_prompt end))))

-- The values of the form's three fields; `none` is a request that is not sent.
unfoldable pub launch_request : Option Json → Option Json → Option Json → Option Json
unfolding trimmed_value
launch_request cwd project initial_prompt =
    let directory = trimmed_value cwd in
    if str_eq directory ""
    then none
    else some (launch_body directory (trimmed_value project) (trimmed_value initial_prompt))

unfoldable pub launch_failure_code : Json → String
unfolding payload_field trimmed_value
launch_failure_code payload =
    let code = trimmed_value (payload_field "code" payload) in
    if str_eq code "" then "unknown" else code

pub record LaunchFailureView : Type 0 where
  pub code : String
  pub message : String

unfoldable pub launch_failure : ℕ → Json → LaunchFailureView
unfolding payload_field trimmed_value launch_failure_code decimal
launch_failure status payload =
    let error = trimmed_value (payload_field "error" payload) in
    record {
      code = launch_failure_code payload;
      message =
          if str_eq error ""
          then "ccctl: launch failed (HTTP " +++ (decimal status +++ ")")
          else error;
    }

unfoldable pub describe_launch_accepted : Json → String
unfolding payload_field trimmed_value
describe_launch_accepted payload =
    let session_id = trimmed_value (payload_field "sessionId" payload) in
    let hint = trimmed_value (payload_field "hint" payload) in
    let head = "launched " +++ (if str_eq session_id "" then "(unknown session)" else session_id) in
    if str_eq hint "" then head else head +++ (" — " +++ hint)
