-- ===== src/Server/Launch.antt =====
-- packages/server/src/ui-session-launch.ts: a client launches a session. `launchSession` waits for the backend, so it
-- is two steps: `begin_launch` up to the call of the backend, and `finish_launch` with what it answers. The path calls
-- of Node, `randomUUID` and the installer of the hooks are parameters; an install is a number.
pub mod Begin
pub mod Counts
pub mod Capacity
pub mod Effects
pub mod Handler
use Prim.Native.String.{◌++◌ as ◌+++◌}
use mathlib.Core.Logic.{◌⊎◌, inl, inr}
use ccctl.Base.{
  ℕ, ◌+◌, String, Bool, true, false, not, List, [], ◌∷◌, ◌++◌, map, Option, none, some, str_eq,
  ◌==◌, ltb, keep, length, if◌then◌else◌,
}
use ccctl.Base.Dict.{Dict, get, set, values}
use ccctl.Core.Json.{Json, Fields, null, str, obj, entries}
use ccctl.Core.Enrichment.{decimal}
use ccctl.Core.Mode.{permission_mode_of}
use ccctl.Server.Release.{LaunchedSession, ReleaseDisposition, release_launched_session}
use ccctl.Server.Pending.{PendingLaunchState, track_pending_launch, clear_pending_launches}
use ccctl.Server.Launcher.{
  SessionLaunchOptions, LaunchFailureCode, launcher_absent, at_capacity, malformed_request,
  invalid_cwd, spawn_failed, launch_code_name, SessionLaunchError, Thrown, an_error,
  session_launch_error_of, LaunchResult, launched, rejected,
}

abbrev pub default_max_sessions : ℕ
default_max_sessions = 8

abbrev pub invalid_cwd_reason : String → String
invalid_cwd_reason cwd =
    "ccctl: cannot launch a session at `" +++ (cwd +++ "` — it is not an existing directory")

abbrev pub at_capacity_reason : ℕ → ℕ → String
at_capacity_reason live cap =
    let sessions = if live == 1 then "1 session is" else decimal live +++ " sessions are" in
    "ccctl: at capacity — "
    +++ (sessions
        +++ (" live and the cap is "
            +++ (decimal cap
                +++ ", so this server will not launch another. End a session to free a slot, or raise the cap (`maxSessions`).")))

-- `none` is a value of a wrong type; `some none` is `undefined`.
abbrev pub optional_string : Option Json → Option (Option String)
optional_string none = some none
optional_string (some (str s)) = some (some s)
optional_string (some _) = none

abbrev pub options_of :
    Option Json → Option Json → Option Json → Option Json → Option SessionLaunchOptions
options_of (some (str cwd)) (some (str mode)) project initial_prompt =
    if str_eq cwd "" then none else elim (permission_mode_of mode) [
      | none ↦ none
      | some permission_mode ↦ elim (optional_string project) [
        | none ↦ none
        | some p ↦ elim (optional_string initial_prompt) [
          | none ↦ none
          | some i ↦ some (record {
            cwd = cwd;
            permission_mode = permission_mode;
            project = p;
            initial_prompt = i;
            settings_path = none;
          })
        ]
      ]
    ]
options_of _ _ _ _ = none

unfoldable pub parse_launch_options : Json → Option SessionLaunchOptions
unfolding permission_mode_of
parse_launch_options (obj o) =
    options_of (get "cwd" (entries o)) (get "permissionMode" (entries o))
      (get "project" (entries o)) (get "initialPrompt" (entries o))
parse_launch_options null = none
parse_launch_options _ = none

-- A reservation is a `Symbol`, a number here.
pub record SessionLaunchState : Type 0 where
  pub pending : PendingLaunchState
  pub has_launcher : Bool
  pub max_sessions : ℕ
  pub launch_reservations : List ℕ
  pub next_symbol : ℕ
  pub hook_installs : Dict ℕ
  pub removed : List ℕ
  pub uuids : ℕ

unfoldable pub live_session_count : SessionLaunchState → ℕ
live_session_count s = length s.pending.sessions + length s.launch_reservations

-- What a launch holds while it waits for the backend.
pub record Launching : Type 0 where
  pub reservation : ℕ
  pub hook_install : Option ℕ
  pub options : SessionLaunchOptions

pub data Beginning : Type 0 where
  denied : SessionLaunchError → Beginning
  waits : Launching → Beginning

abbrev denial : LaunchFailureCode → String → Beginning
denial code message = denied (record { code = code; message = message })

-- `launchReservations.delete(reservation)`
abbrev pub release_reservation : ℕ → List ℕ → List ℕ
release_reservation r reservations = keep (λ q. not (q == r)) reservations

-- `hookInstalls.set(sessionId, hookInstall)`, if there is an install.
abbrev pub put_install : String → Option ℕ → Dict ℕ → Dict ℕ
put_install session_id none m = m
put_install session_id (some install) m = set session_id install m

abbrev pub installs_of : Option ℕ → List ℕ
installs_of none = []
installs_of (some install) = install ∷ []

module _ (resolve : String → String) (is_absolute : String → Bool)
    (realpath : String → Option String) (is_directory : String → Bool) (uuid : ℕ → String)
    (install : String → Option ℕ) (settings_path : ℕ → String) where
  -- `none` is a path that does not exist or is no directory.
  unfoldable pub resolve_launch_cwd : String → Option String
  resolve_launch_cwd cwd = elim (realpath (resolve cwd)) [
    | none ↦ none
    | some resolved ↦ if is_directory resolved then some resolved else none
  ]

  -- Up to the call of the backend.
  unfoldable pub begin_launch :
      SessionLaunchState → SessionLaunchOptions → Beginning × SessionLaunchState
  unfolding live_session_count resolve_launch_cwd
  begin_launch s options =
      if not s.has_launcher
      then (
        denial launcher_absent
            "ccctl: no session launcher is configured — this server cannot launch sessions",
        s,
      )
      else let live = live_session_count s in
        if not (ltb live s.max_sessions)
        then (denial at_capacity (at_capacity_reason live s.max_sessions), s)
        else elim (resolve_launch_cwd options.cwd) [
          | none ↦ (denial invalid_cwd (invalid_cwd_reason options.cwd), s)
          | some cwd ↦
              let hook_install = install (uuid s.uuids) in
              (
                waits (record {
                  reservation = s.next_symbol;
                  hook_install = hook_install;
                  options = record options {
                    cwd = cwd;
                    settings_path = elim hook_install [
                      | none ↦ options.settings_path
                      | some i ↦ some (settings_path i)
                    ];
                  };
                }),
                record s {
                  launch_reservations = s.launch_reservations ++ s.next_symbol ∷ [];
                  next_symbol = s.next_symbol + 1;
                  uuids = s.uuids + 1;
                },
              )
        ]

  -- From the backend's answer on: the session's id, or what the launch is rejected with.
  unfoldable pub finish_launch :
      SessionLaunchState
      → Launching
      → LaunchResult
      → ℕ
      → (Thrown ⊎ (String × LaunchedSession)) × SessionLaunchState
  unfolding track_pending_launch
  finish_launch s l (launched surface) now =
      let session_id = uuid s.uuids in
      (
        inr (session_id, surface),
        record s {
          uuids = s.uuids + 1;
          pending =
              track_pending_launch resolve is_absolute realpath s.pending session_id l.options.cwd
                l.options.permission_mode surface now;
          hook_installs = put_install session_id l.hook_install s.hook_installs;
          launch_reservations = release_reservation l.reservation s.launch_reservations;
        },
      )
  finish_launch s l (rejected t) now = (
    inl t,
    record s {
      removed = s.removed ++ installs_of l.hook_install;
      launch_reservations = release_reservation l.reservation s.launch_reservations;
    },
  )

-- What `releaseLaunchedSession` did to each surface.
unfoldable pub release_launched_sessions :
    SessionLaunchState → List (Option ReleaseDisposition × Bool) × SessionLaunchState
unfolding clear_pending_launches release_launched_session
release_launched_sessions s =
    let cleared = clear_pending_launches s.pending in
    (
      map release_launched_session (values cleared.launched_surfaces),
      record s { pending = record cleared { launched_surfaces = [] } },
    )
