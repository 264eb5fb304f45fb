-- ===== src/Server/Tests/Launches.antt =====
-- The theorems on the launch of a session in packages/server, at a server without sessions.
use native.Mathlib.Omega.{arith}
use mathlib.Core.Logic.{◌⊎◌, inl, inr}
use ccctl.Base.{ℕ, ◌+◌, ◌≡◌, refl, String, Bool, true, List, [], ◌∷◌, ◌++◌, Option, none, some}
use ccctl.Base.Dict.{get}
use ccctl.Core.Session.{default, registering, is_idle, is_non_prompting}
use ccctl.Server.Bridge.{SessionCreateRequestBody}
use ccctl.Server.Work.{WorkState}
use ccctl.Server.Work.Create.{Mint}
use ccctl.Server.Pending.{claim_pending_launch}
use ccctl.Server.Launcher.{
  SessionLaunchOptions, an_error, no_error, LaunchResult, launched, rejected, SessionLauncher,
}
use ccctl.Server.Launcher.Fallback.{Made, Refused, create_fallback_session_launcher, fallback_lem}
use ccctl.Server.Launch.{
  SessionLaunchState, live_session_count, Launching, waits, begin_launch, finish_launch,
}
use ccctl.Server.Launch.Capacity.{
  World, Event, begins, settles, registers, expires, IsWithinCap, joined, run, run-IsWithinCap,
}
use ccctl.Server.Launch.Effects.{launch-fails, launch-claimed}
use ccctl.Server.Tests.{same_path, absolute, no_launches}
use ccctl.Server.Tests.Surfaces.{surface}

abbrev known : String → Option String
known p = some p

abbrev directory : String → Bool
directory p = true

abbrev minted : ℕ → String
minted n = "s1"

abbrev installed : String → Option ℕ
installed token = some 7

abbrev settings_at : ℕ → String
settings_at n = "settings.json"

abbrev wanted : SessionLaunchOptions
wanted = record {
  cwd = "/work";
  permission_mode = default;
  project = none;
  initial_prompt = some "go";
  settings_path = none;
}

abbrev idle_server : SessionLaunchState
idle_server = record {
  pending = no_launches;
  has_launcher = true;
  max_sessions = 1;
  launch_reservations = [];
  next_symbol = 0;
  hook_installs = [];
  removed = [];
  uuids = 0;
}

abbrev quiet_work : WorkState
quiet_work = record {
  environments = [];
  answers = [];
  delivered = [];
  closed = [];
  next_response = 0;
}

abbrev world : World
world = record {
  state = idle_server;
  in_flight = [];
  work = quiet_work;
  host = "127.0.0.1";
  port = 80;
  drawn = 0;
}

abbrev attached : SessionCreateRequestBody
attached = record { model = "m"; cwd = "/elsewhere"; source = "cli"; permission_mode = default }

abbrev mint : Mint
mint = record { uuid = λ n. "u"; token = λ n. "t"; encode = λ s. "secret" }

abbrev side_by_side : List Event
side_by_side =
    begins wanted
    ∷ begins wanted
    ∷ settles 0 (launched surface) 5
    ∷ registers attached 6
    ∷ expires "s1"
    ∷ begins wanted
    ∷ []

world-IsWithinCap : IsWithinCap world 0
unfolding live_session_count
world-IsWithinCap = record { reserved = refl; within = omega arith }

run-IsWithinCap_example :
    IsWithinCap
      (run mint same_path absolute known directory minted installed settings_at world side_by_side)
      (0
        + joined mint same_path absolute known directory minted installed settings_at world
            side_by_side)
run-IsWithinCap_example =
    run-IsWithinCap mint same_path absolute known directory minted installed settings_at world
      side_by_side 0 world-IsWithinCap

abbrev waiting : Launching
waiting = record {
  reservation = 0;
  hook_install = some 7;
  options = record wanted { settings_path = some "settings.json" };
}

abbrev reserved : SessionLaunchState
reserved = record idle_server { launch_reservations = 0 ∷ []; next_symbol = 1; uuids = 1 }

beginning :
    begin_launch same_path absolute known directory minted installed settings_at idle_server wanted
    ≡ (waits waiting, reserved)
unfolding begin_launch
beginning = refl

launch-fails_example :
    let r =
      finish_launch same_path absolute known directory minted installed settings_at reserved waiting
        (rejected no_error)
        5 in
    (r.0 ≡ inl no_error)
    × (r.1.pending ≡ idle_server.pending)
    × (r.1.launch_reservations ≡ idle_server.launch_reservations)
    × (r.1.hook_installs ≡ idle_server.hook_installs)
    × (r.1.removed ≡ idle_server.removed ++ 7 ∷ [])
launch-fails_example =
    launch-fails same_path absolute known directory minted installed settings_at idle_server wanted
      waiting reserved no_error 5 tt beginning

fresh_id : get (minted reserved.uuids) reserved.pending.pending_launches ≡ none
unfolding get
fresh_id = refl

launch-claimed_example :
    let id = minted reserved.uuids in
    let r =
      finish_launch same_path absolute known directory minted installed settings_at reserved waiting
        (launched surface)
        5 in
    (r.0 ≡ inr (id, surface))
    × ((claim_pending_launch same_path absolute known r.1.pending "/work"
          waiting.options.permission_mode).0
        ≡ some id)
    × (get id r.1.pending.sessions
        ≡ some (record {
          id = id;
          status = registering;
          activity = is_idle;
          auto_resolves_permissions = is_non_prompting waiting.options.permission_mode;
          created_at = 5;
          last_activity_at = 5;
          last_heartbeat_at = 5;
        }))
    × (get id r.1.pending.launched_surfaces ≡ some surface)
    × (get id r.1.hook_installs ≡ some 7)
launch-claimed_example =
    launch-claimed same_path absolute known directory minted installed settings_at reserved waiting
      surface 5 "/work" (tt, λ cwd mode. inl (omega arith)) fresh_id refl refl refl

abbrev busy_host : SessionLauncher
busy_host options = rejected (an_error (some "worker-not-found") "no claude on the path")

abbrev unreachable_host : SessionLauncher
unreachable_host options = rejected no_error

abbrev backends : List SessionLauncher
backends = unreachable_host ∷ busy_host ∷ []

abbrev first_of :
    Option (SessionLaunchOptions → LaunchResult × ℕ) → SessionLaunchOptions → LaunchResult × ℕ
first_of none options = (rejected no_error, 0)
first_of (some launch) options = launch options

offered :
    create_fallback_session_launcher backends
    ≡ some (first_of (create_fallback_session_launcher backends))
unfolding create_fallback_session_launcher
offered = refl

fallback_lem_example :
    Made wanted backends (first_of (create_fallback_session_launcher backends) wanted)
    ⊎ Refused wanted backends (first_of (create_fallback_session_launcher backends) wanted)
fallback_lem_example =
    fallback_lem wanted backends (first_of (create_fallback_session_launcher backends)) offered
