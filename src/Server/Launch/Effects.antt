-- ===== src/Server/Launch/Effects.antt =====
-- What a launch of packages/server/src/ui-session-launch.ts leaves behind, when it fails and when its worker comes.
use native.Mathlib.Omega.{arith}
use mathlib.Core.Logic.{inl, inr}
use ccctl.Base.{
  ℕ, ◌<◌, ◌≡◌, refl, ap, sym, ◌∙◌, String, Bool, true, false, List, [], ◌∷◌, ◌++◌, Option, none,
  some, ◌==◌, All, Bool-cases, str_eq, eq_refl,
}
use ccctl.Base.Dict.{Dict, get, set, get-set_self}
use ccctl.Core.Session.{
  PermissionMode, registering, is_idle, is_non_prompting, create_session,
  create_registering_session,
}
use ccctl.Server.Release.{LaunchedSession}
use ccctl.Server.Pending.{
  PendingLaunch, PendingLaunchState, same_group, mode_eq, mark_ambiguous_group, canonical_cwd,
  track_pending_launch, claim_pending_launch,
}
use ccctl.Core.Mode.{mode_name}
use ccctl.Server.Pending.Groups.{group, IsWellFormed}
use ccctl.Server.Pending.Claims.{track, run-IsWellFormed, claim-sole}
use ccctl.Server.Launch.Begin.{reserve, begin-cases}
use ccctl.Server.Launcher.{SessionLaunchOptions, Thrown, launched, rejected}
use ccctl.Server.Launch.{
  SessionLaunchState, Launching, waits, release_reservation, installs_of, put_install, begin_launch,
  finish_launch,
}

-- A launch under a new id joins its group last.
group-set :
    (cwd : String) (mode : PermissionMode) (id : String) (p : PendingLaunch)
    (m : Dict PendingLaunch)
    → get id m ≡ none
    → same_group cwd mode p ≡ true
    → group cwd mode m ≡ []
    → group cwd mode (set id p m) ≡ p ∷ []
unfolding get set
group-set cwd mode id p [] new member alone = rw member refl
group-set cwd mode id p ((k, q) ∷ m) new member alone = elim (Bool-cases (str_eq k id)) [
  | inl e ↦ absurd (let no = rw e at new in cc no)
  | inr e ↦ elim (Bool-cases (same_group cwd mode q)) [
    | inl g ↦ absurd (let no = rw g at alone in cc no)
    | inr g ↦ rw (e, g) (group-set cwd mode id p m (rw e at new) member (rw g at alone))
  ]
]

marked-alone :
    (cwd : String) (mode : PermissionMode) (p : PendingLaunch) (m : Dict PendingLaunch)
    → group cwd mode m ≡ p ∷ []
    → mark_ambiguous_group m cwd mode ≡ m
unfolding mark_ambiguous_group
marked-alone cwd mode p m alone = rw (alone, mark_ambiguous_group) refl

same_group_self : (p : PendingLaunch) → same_group p.cwd p.permission_mode p ≡ true
unfolding mode_eq
same_group_self p = rw (eq_refl p.cwd, eq_refl (mode_name p.permission_mode)) refl

module _ (resolve : String → String) (is_absolute : String → Bool)
    (realpath : String → Option String) where
  -- What is tracked for a directory and a mode that no other launch waits for is what a bridge claims that
  -- reports this directory and this mode.
  tracked-claimed :
      (s : PendingLaunchState) (id cwd there : String) (mode : PermissionMode)
      (surface : LaunchedSession) (now : ℕ)
      → IsWellFormed s.pending_launches
      → get id s.pending_launches ≡ none
      → group (canonical_cwd resolve is_absolute realpath cwd) mode s.pending_launches ≡ []
      → is_absolute there ≡ true
      → canonical_cwd resolve is_absolute realpath there
        ≡ canonical_cwd resolve is_absolute realpath cwd
      → (claim_pending_launch resolve is_absolute realpath
          (track_pending_launch resolve is_absolute realpath s id cwd mode surface now)
          there
          mode).0
        ≡ some id
  unfolding track_pending_launch
  tracked-claimed s id cwd there mode surface now w new alone abs same =
      let canonical = canonical_cwd resolve is_absolute realpath cwd in
      let p : PendingLaunch = record {
        session_id = id;
        cwd = canonical;
        permission_mode = mode;
        launched = surface;
        timer = s.next_timer;
        ambiguous = false;
        may_hold_live_worker = false;
      } in
      let sole = group-set canonical mode id p s.pending_launches new (same_group_self p) alone in
      let same_map = marked-alone canonical mode p (set id p s.pending_launches) sole in
      let after = track_pending_launch resolve is_absolute realpath s id cwd mode surface now in
      (claim-sole resolve is_absolute realpath after there mode id (
          run-IsWellFormed resolve is_absolute realpath s (track id cwd mode surface now ∷ []) w)).1
        (abs, p, rw (same, same_map) sole, refl, refl)

installs-of : (hooks : Option ℕ) → installs_of hooks ≡ elim hooks [ none ↦ [] | some h ↦ h ∷ [] ]
installs-of none = refl
installs-of (some h) = refl

get-put_install :
    (id : String) (hooks : Option ℕ) (m : Dict ℕ)
    → get id (put_install id hooks m) ≡ elim hooks [ none ↦ get id m | some h ↦ some h ]
get-put_install id none m = refl
get-put_install id (some h) m = get-set_self id h m

released_last :
    (r : ℕ) (rs : List ℕ) → All (λ q. q < r) rs → release_reservation r (rs ++ r ∷ []) ≡ rs
released_last r [] h = ground arith
released_last r (q ∷ rs) h =
    let tail = released_last r rs h.1 in
    elim (Bool-cases (q == r)) [
      | inl e ↦ absurd (ground arith)
      | inr e ↦ rw e (ap (λ l. q ∷ l) tail)
    ]

module _ (resolve : String → String) (is_absolute : String → Bool)
    (realpath : String → Option String) (is_directory : String → Bool) (uuid : ℕ → String)
    (install : String → Option ℕ) (settings_path : ℕ → String) where
  begin-waits :
      (s : SessionLaunchState) (options : SessionLaunchOptions) (l : Launching)
      (t : SessionLaunchState)
      → begin_launch resolve is_absolute realpath is_directory uuid install settings_path s options
        ≡ (waits l, t)
      → (l.reservation ≡ s.next_symbol) × (t ≡ reserve s)
  begin-waits s options l t e =
      elim (begin-cases resolve is_absolute realpath is_directory uuid install settings_path s
        options) [
          | inl (error, r) ↦ absurd (let no = ap (λ x. x.0) (sym r ∙ e) in cc no)
          | inr (m, r, slot, room) ↦
              let both = sym r ∙ e in
              let left = ap (λ x. x.0) both in let right = ap (λ x. x.1) both in (cc, cc)
        ]

  -- A launch that its backend refuses gives back its slot and has the files of its hooks removed: apart from that, the
  -- sessions, the pending launches, the surfaces, the reservations and the hooks of the sessions are as before
  -- it began.
  pub launch-fails :
      (s : SessionLaunchState) (options : SessionLaunchOptions) (l : Launching)
      (waiting : SessionLaunchState) (t : Thrown) (now : ℕ)
      → All (λ r. r < s.next_symbol) s.launch_reservations
      → begin_launch resolve is_absolute realpath is_directory uuid install settings_path s options
        ≡ (waits l, waiting)
      → let r =
          finish_launch resolve is_absolute realpath is_directory uuid install settings_path waiting
            l
            (rejected t)
            now in
        (r.0 ≡ inl t)
        × (r.1.pending ≡ s.pending)
        × (r.1.launch_reservations ≡ s.launch_reservations)
        × (r.1.hook_installs ≡ s.hook_installs)
        × (r.1.removed ≡ s.removed ++ elim l.hook_install [ none ↦ [] | some hooks ↦ hooks ∷ [] ])
  unfolding finish_launch
  launch-fails s options l waiting t now fresh e =
      let (slot, same) = begin-waits s options l waiting e in
      rw (same, slot)
        (
          refl,
          refl,
          released_last s.next_symbol s.launch_reservations fresh,
          refl,
          ap (λ hooks. s.removed ++ hooks) (installs-of l.hook_install),
        )

  -- A launch that its backend makes, under an id that no pending launch has, is what a bridge claims that reports the
  -- same directory and mode, if no other launch waits for these. Until then its session is listed as
  -- registering, and its surface and its hooks are kept under its id.
  pub launch-claimed :
      (s : SessionLaunchState) (l : Launching) (surface : LaunchedSession) (now : ℕ)
      (there : String)
      → IsWellFormed s.pending.pending_launches
      → get (uuid s.uuids) s.pending.pending_launches ≡ none
      → group
          (canonical_cwd resolve is_absolute realpath l.options.cwd)
          l.options.permission_mode
          s.pending.pending_launches
        ≡ []
      → is_absolute there ≡ true
      → canonical_cwd resolve is_absolute realpath there
        ≡ canonical_cwd resolve is_absolute realpath l.options.cwd
      → let id = uuid s.uuids in
        let r =
          finish_launch resolve is_absolute realpath is_directory uuid install settings_path s l
            (launched surface)
            now in
        (r.0 ≡ inr (id, surface))
        × ((claim_pending_launch resolve is_absolute realpath r.1.pending there
              l.options.permission_mode).0
            ≡ some id)
        × (get id r.1.pending.sessions
            ≡ some (record {
              id = id;
              status = registering;
              activity = is_idle;
              auto_resolves_permissions = is_non_prompting l.options.permission_mode;
              created_at = now;
              last_activity_at = now;
              last_heartbeat_at = now;
            }))
        × (get id r.1.pending.launched_surfaces ≡ some surface)
        × (get id r.1.hook_installs
            ≡ elim l.hook_install [ none ↦ get id s.hook_installs | some hooks ↦ some hooks ])
  unfolding finish_launch track_pending_launch create_registering_session create_session
  launch-claimed s l surface now there w new alone abs same =
      let id = uuid s.uuids in
      (
        refl,
        tracked-claimed resolve is_absolute realpath s.pending id l.options.cwd there
            l.options.permission_mode surface now w new alone abs same,
        get-set_self id _ s.pending.sessions,
        get-set_self id surface s.pending.launched_surfaces,
        get-put_install id l.hook_install s.hook_installs,
      )
