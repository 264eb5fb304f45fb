-- ===== src/Web/Launch/Accepted.antt =====
-- The launch form of packages/web-ui/src/launch.js against the server's parser in
-- packages/server/src/ui-session-launch.ts.
use ccctl.Base.{
  ◌≡◌, ◌⊎◌, inl, inr, refl, String, Bool, true, false, Option, none, some, str_eq, str_eq-cases,
  if◌then◌else◌,
}
use ccctl.Base.Dict.{get}
use ccctl.Core.Json.{Json, str, obj, field, end}
use ccctl.Core.Session.{default}
use ccctl.Server.Body.{ok}
use ccctl.Server.Launch.Handler.{handle_session_launch}
use ccctl.Web.Fields.{trimmed_value}
use ccctl.Web.Launch.{launch_body, launch_request}

-- A blank field is left out.
abbrev pub unless_blank : String → Option String
unless_blank value = if str_eq value "" then none else some value

parsed :
    (no_project no_prompt : Bool) (cwd project initial_prompt : String)
    → str_eq cwd "" ≡ false
    → handle_session_launch "POST" (
        ok (
          obj (
            field "cwd" (str cwd) (
              field "permissionMode" (str "default") (
                let rest =
                  if no_prompt then end else field "initialPrompt" (str initial_prompt) end in
                if no_project then rest else field "project" (str project) rest)))))
      ≡ inr (record {
        cwd = cwd;
        permission_mode = default;
        project = if no_project then none else some project;
        initial_prompt = if no_prompt then none else some initial_prompt;
        settings_path = none;
      })
unfolding handle_session_launch get
parsed true true cwd project initial_prompt e = rw e refl
parsed true false cwd project initial_prompt e = rw e refl
parsed false true cwd project initial_prompt e = rw e refl
parsed false false cwd project initial_prompt e = rw e refl

-- A form is sent exactly if its directory is not blank, and a form that is sent is taken by the server for what it says:
-- the directory, the project and the prompt without the space around them, blank ones left out, and the
-- default permission mode.
pub launch_request-parses :
    (cwd project initial_prompt : Option Json)
    → ((trimmed_value cwd ≡ "") × (launch_request cwd project initial_prompt ≡ none))
      ⊎ ((body : Json) × (launch_request cwd project initial_prompt ≡ some body)
          × (handle_session_launch "POST" (ok body)
              ≡ inr (record {
                cwd = trimmed_value cwd;
                permission_mode = default;
                project = unless_blank (trimmed_value project);
                initial_prompt = unless_blank (trimmed_value initial_prompt);
                settings_path = none;
              })))
unfolding launch_request
launch_request-parses cwd project initial_prompt = elim (str_eq-cases (trimmed_value cwd) "") [
  | inl (same, e) ↦ inl (same, rw (e, launch_request) refl)
  | inr (_, e) ↦ inr (
    launch_body (trimmed_value cwd) (trimmed_value project) (trimmed_value initial_prompt),
    rw (e, launch_request) refl,
    parsed (str_eq (trimmed_value project) "") (str_eq (trimmed_value initial_prompt) "")
        (trimmed_value cwd) (trimmed_value project) (trimmed_value initial_prompt) e,
  )
]
