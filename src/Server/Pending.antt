-- ===== src/Server/Pending.antt =====
-- packages/server/src/pending-launch.ts: the launches that wait for their worker to register, and how a
-- registering bridge is matched to one of them. The path calls of Node (`resolve`, `isAbsolute`,
-- `realpathSync`, `statSync`) are parameters, as is the clock. A timer is a number; `armed` lists those that run.
pub mod Marking
pub mod Groups
pub mod Preserved
pub mod Claims
pub mod Shared
pub mod Eviction
use ccctl.Base.{
  ℕ, ◌+◌, String, Bool, true, false, not, ◌&&◌, List, [], ◌∷◌, Option, none, some, keep, length,
  ltb, str_eq, ◌==◌, if◌then◌else◌,
}
use ccctl.Base.Dict.{Dict, get, set, delete, values}
use ccctl.Core.Session.{Session, PermissionMode, create_registering_session}
use ccctl.Core.Mode.{mode_name}
use ccctl.Server.EventStream.{SessionEventRelays, Wire, close_session_relay}
use ccctl.Server.Release.{
  LaunchedSession, ReleaseDisposition, tear_down, leave_running, no_op, release_launched_session,
}

-- `===` on two modes, which are strings in the source.
unfoldable pub mode_eq : PermissionMode → PermissionMode → Bool
unfolding mode_name
mode_eq a b = str_eq (mode_name a) (mode_name b)

pub record PendingLaunch : Type 0 where
  pub session_id : String
  pub cwd : String
  pub permission_mode : PermissionMode
  pub launched : LaunchedSession
  pub timer : ℕ
  pub ambiguous : Bool
  pub may_hold_live_worker : Bool

pub record PendingLaunchState : Type 0 where
  pub pending_launches : Dict PendingLaunch
  pub sessions : Dict Session
  pub launched_surfaces : Dict LaunchedSession
  pub event_relays : SessionEventRelays
  pub wire : Wire
  pub armed : List ℕ
  pub next_timer : ℕ

abbrev pub same_group : String → PermissionMode → PendingLaunch → Bool
same_group cwd mode p = str_eq p.cwd cwd && mode_eq p.permission_mode mode

-- `for (const pending of ...) pendingLaunches.set(pending.sessionId, change(pending))`
unfoldable pub put_all :
    (PendingLaunch → PendingLaunch) → List PendingLaunch → Dict PendingLaunch → Dict PendingLaunch
put_all change [] m = m
put_all change (p ∷ ps) m = put_all change ps (set p.session_id (change p) m)

abbrev pub as_ambiguous : PendingLaunch → PendingLaunch
as_ambiguous p = record p { ambiguous = true }

abbrev pub as_live : PendingLaunch → PendingLaunch
as_live p = record p { may_hold_live_worker = true }

unfoldable pub mark_ambiguous_group :
    Dict PendingLaunch → String → PermissionMode → Dict PendingLaunch
unfolding put_all
mark_ambiguous_group m cwd mode =
    let group = keep (same_group cwd mode) (values m) in
    if ltb (length group) 2 then m else put_all as_ambiguous group m

unfoldable pub mark_group_may_hold_live_worker :
    Dict PendingLaunch → String → PermissionMode → Dict PendingLaunch
unfolding put_all
mark_group_may_hold_live_worker m cwd mode =
    put_all as_live (keep (λ p. same_group cwd mode p && not p.may_hold_live_worker) (values m)) m

unfoldable pub oldest_pending_launch :
    List PendingLaunch → String → PermissionMode → Option PendingLaunch
oldest_pending_launch [] cwd mode = none
oldest_pending_launch (p ∷ ps) cwd mode =
    if same_group cwd mode p then some p else oldest_pending_launch ps cwd mode

unfoldable pub clear_timeout : ℕ → List ℕ → List ℕ
clear_timeout t armed = keep (λ u. not (u == t)) armed

unfoldable pub consume_pending_launch :
    PendingLaunchState → String → Option PendingLaunch × PendingLaunchState
unfolding clear_timeout
consume_pending_launch s session_id = elim (get session_id s.pending_launches) [
  | none ↦ (none, s)
  | some p ↦ (
    some p,
    record s {
      pending_launches = delete session_id s.pending_launches;
      armed = clear_timeout p.timer s.armed;
    },
  )
]

unfoldable pub drop_placeholder : PendingLaunchState → String → PendingLaunchState
drop_placeholder s session_id =
    let closed = close_session_relay s.event_relays s.wire session_id in
    record s { sessions = delete session_id s.sessions; event_relays = closed.0; wire = closed.1 }

-- The end of `claimPendingLaunch`, once the oldest launch of the group is found.
unfoldable pub take_claim :
    PendingLaunchState → PendingLaunch → String → Option String × PendingLaunchState
unfolding consume_pending_launch drop_placeholder mark_group_may_hold_live_worker
take_claim s claimed canonical =
    let consumed = (consume_pending_launch s claimed.session_id).1 in
    if not claimed.ambiguous
    then (some claimed.session_id, consumed)
    else let dropped = drop_placeholder consumed claimed.session_id in
      (
        none,
        record dropped {
          pending_launches =
              mark_group_may_hold_live_worker dropped.pending_launches canonical
                claimed.permission_mode;
        },
      )

-- What `releaseLaunchedSession` leads to: the surface is kept if it was left running, or if the call never
-- comes back.
unfoldable pub forget_released :
    PendingLaunchState → String → Option ReleaseDisposition → PendingLaunchState
forget_released s session_id (some leave_running) = s
forget_released s session_id none = s
forget_released s session_id (some tear_down) = record s {
  launched_surfaces = delete session_id s.launched_surfaces;
}
forget_released s session_id (some no_op) = record s {
  launched_surfaces = delete session_id s.launched_surfaces;
}

-- The timer's callback. The second result tells whether `close()` was called on the surface.
unfoldable pub evict_pending_launch : PendingLaunchState → String → PendingLaunchState × Bool
unfolding consume_pending_launch drop_placeholder forget_released
evict_pending_launch s session_id = elim (get session_id s.pending_launches) [
  | none ↦ (s, false)
  | some p ↦
      let dropped = drop_placeholder (consume_pending_launch s session_id).1 session_id in
      if p.may_hold_live_worker
      then (dropped, false)
      else let released = release_launched_session p.launched in
        (forget_released dropped session_id released.0, released.1)
]

-- Every timer of a pending launch is cleared, and the map with them.
unfoldable pub clear_timeouts : List PendingLaunch → List ℕ → List ℕ
unfolding clear_timeout
clear_timeouts [] armed = armed
clear_timeouts (p ∷ ps) armed = clear_timeouts ps (clear_timeout p.timer armed)

unfoldable pub clear_pending_launches : PendingLaunchState → PendingLaunchState
unfolding clear_timeouts
clear_pending_launches s = record s {
  pending_launches = [];
  armed = clear_timeouts (values s.pending_launches) s.armed;
}

module _ (resolve : String → String) (is_absolute : String → Bool)
    (realpath : String → Option String) where
  -- `none` is a path that the file system does not know.
  unfoldable pub canonical_cwd : String → String
  canonical_cwd cwd = elim (realpath (resolve cwd)) [ none ↦ resolve cwd | some p ↦ p ]

  unfoldable pub track_pending_launch :
      PendingLaunchState
      → String
      → String
      → PermissionMode
      → LaunchedSession
      → ℕ
      → PendingLaunchState
  unfolding canonical_cwd mark_ambiguous_group
  track_pending_launch s session_id cwd mode launched now =
      let canonical = canonical_cwd cwd in
      let p : PendingLaunch = record {
        session_id = session_id;
        cwd = canonical;
        permission_mode = mode;
        launched = launched;
        timer = s.next_timer;
        ambiguous = false;
        may_hold_live_worker = false;
      } in
      record s {
        sessions = set session_id (create_registering_session session_id mode now) s.sessions;
        launched_surfaces = set session_id launched s.launched_surfaces;
        armed = s.next_timer ∷ s.armed;
        next_timer = s.next_timer + 1;
        pending_launches =
            mark_ambiguous_group (set session_id p s.pending_launches) canonical mode;
      }

  unfoldable pub claim_pending_launch :
      PendingLaunchState → String → PermissionMode → Option String × PendingLaunchState
  unfolding canonical_cwd oldest_pending_launch take_claim
  claim_pending_launch s cwd mode =
      if not (is_absolute cwd)
      then (none, s)
      else let canonical = canonical_cwd cwd in
        elim (oldest_pending_launch (values s.pending_launches) canonical mode) [
          | none ↦ (none, s)
          | some claimed ↦ take_claim s claimed canonical
        ]
