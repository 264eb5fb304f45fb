-- ===== src/Server/Tests.antt =====
-- The theorems on packages/server at concrete inputs.
mod Surfaces
mod Stops
mod Launches
mod Shutdowns
mod Stored
mod Streams
pub mod Closed
pub mod Channels
mod Commands
use native.Mathlib.Omega.{arith}
use mathlib.Core.List.{Perm}
use mathlib.Core.List.Perm
use ccctl.Base.{
  ℕ, ◌+◌, ◌-◌, ◌≤◌, ◌<◌, ◌≡◌, ◌≢◌, ◌↔◌, ◌⊎◌, refl, inl, inr, String, Bool, true, false, not, List,
  [], ◌∷◌, ◌++◌, map, Option, none, some, str_eq, length, drop, keep, any, All, if◌then◌else◌,
}
use ccctl.Base.Dict.{Dict, get, set, delete, values}
use ccctl.Core.Json.{Json, Number, nonneg, null, num, str, obj, Fields, field, end}
use ccctl.Core.Session.{Session, ready, registering, awaits, is_idle, plan, default, PermissionMode}
use ccctl.Server.Tests.Surfaces.{surface, unclear}
use ccctl.Server.Release.{
  TerminalAttachment, LaunchedSession, SurfaceLiveness, ReleaseDisposition, alive_server_owned,
  taken_over, exited, surface_indeterminate, tear_down, reads, fails, completes, read_liveness,
  release_launched_session, stop_launched_session, stopped,
}
use ccctl.Server.Release.Stop.{MayClose, stop-closes_iff, release-closes_iff, stop-torn_down}
use ccctl.Server.EventStream.{SessionEventRelays, Wire, EventStreamState}
use ccctl.Server.Pending.{
  PendingLaunch, PendingLaunchState, track_pending_launch, claim_pending_launch, canonical_cwd,
  evict_pending_launch, mode_eq,
}
use ccctl.Server.Pending.Groups.{group, IsWellFormed}
use ccctl.Server.Pending.Shared.{run-claim_iff}
use ccctl.Server.Pending.Claims.{Step, track, claim, consume, evict, clear, run, run-IsWellFormed}
use ccctl.Server.Pending.Eviction.{evict-closes_iff, evict-leaves}

-- Launches and their surfaces.

stopping :
    (stop_launched_session surface false).0
    ≡ stopped (record { disposition = tear_down; liveness = alive_server_owned })
unfolding stop_launched_session
stopping = refl

-- Pending launches. Paths are absolute, and what they are.

abbrev pub same_path : String → String
same_path p = p

abbrev pub absolute : String → Bool
absolute p = true

abbrev pub unknown : String → Option String
unknown p = none

abbrev nobody : Wire
nobody = record { written = []; ended = [] }

abbrev pub no_launches : PendingLaunchState
no_launches = record {
  pending_launches = [];
  sessions = [];
  launched_surfaces = [];
  event_relays = [];
  wire = nobody;
  armed = [];
  next_timer = 0;
}

no_launches-IsWellFormed : IsWellFormed []
no_launches-IsWellFormed = (tt, λ cwd mode. inl (omega arith))

abbrev launches : List Step
launches =
    track "s1" "/a" plan surface 3
    ∷ track "s2" "/a" plan surface 4
    ∷ track "s3" "/b" default unclear 5
    ∷ claim "/a" plan
    ∷ evict "s2"
    ∷ []

run-IsWellFormed_example :
    IsWellFormed (run same_path absolute unknown no_launches launches).pending_launches
run-IsWellFormed_example =
    run-IsWellFormed same_path absolute unknown no_launches launches no_launches-IsWellFormed

abbrev waiting : PendingLaunchState
waiting = run same_path absolute unknown no_launches (track "s1" "/a" plan surface 3 ∷ [])

abbrev first_launch : PendingLaunch
first_launch = record {
  session_id = "s1";
  cwd = "/a";
  permission_mode = plan;
  launched = surface;
  timer = 0;
  ambiguous = false;
  may_hold_live_worker = false;
}

first_pending : get "s1" waiting.pending_launches ≡ some first_launch
unfolding get set track_pending_launch mode_eq
first_pending = refl

abbrev elsewhere : List Step
elsewhere = track "s2" "/b" plan surface 4 ∷ consume "s2" ∷ []

run-claim_iff_example :
    let t = run same_path absolute unknown waiting elsewhere in
    ((claim_pending_launch same_path absolute unknown t "/a" plan).0 ≡ some "s1") ↔ (
      (true ≡ true)
      × (q : PendingLaunch) × (group
            (canonical_cwd same_path absolute unknown "/a")
            plan
            t.pending_launches
          ≡ q ∷ [])
      × (q.ambiguous ≡ false)
      × (q.session_id ≡ "s1")
      × (length (group "/a" plan waiting.pending_launches) < 2))
run-claim_iff_example =
    run-claim_iff same_path absolute unknown waiting elsewhere "/a" plan "s1" first_launch
      (run-IsWellFormed same_path absolute unknown no_launches (track "s1" "/a" plan surface 3 ∷ [])
        no_launches-IsWellFormed)
      first_pending (refl, (refl, tt))

abbrev launch : LaunchedSession → Bool → PendingLaunch
launch l held = record {
  session_id = "s1";
  cwd = "/a";
  permission_mode = plan;
  launched = l;
  timer = 0;
  ambiguous = false;
  may_hold_live_worker = held;
}

abbrev pending_with : PendingLaunch → PendingLaunchState
pending_with p = record no_launches {
  pending_launches = ("s1", p) ∷ [];
  launched_surfaces = ("s1", p.launched) ∷ [];
  armed = 0 ∷ [];
}

found : (p : PendingLaunch) → get "s1" (pending_with p).pending_launches ≡ some p
unfolding get
found p = refl
