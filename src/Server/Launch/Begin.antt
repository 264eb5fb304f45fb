-- ===== src/Server/Launch/Begin.antt =====
-- How the first part of a launch of packages/server/src/ui-session-launch.ts ends: refused, or with a reservation.
use mathlib.Core.Logic.{◌⊎◌, inl, inr}
use ccctl.Base.{
  ℕ, ◌<◌, ◌+◌, ◌≡◌, refl, String, Bool, [], ◌∷◌, ◌++◌, Option, ltb, ltb→lt, Bool-cases,
  Option-cases,
}
use ccctl.Server.Launcher.{SessionLaunchOptions, SessionLaunchError}
use ccctl.Server.Launch.{
  SessionLaunchState, live_session_count, Launching, denied, waits, resolve_launch_cwd,
  begin_launch,
}

-- The state with one more reservation.
abbrev pub reserve : SessionLaunchState → SessionLaunchState
reserve s = record s {
  launch_reservations = s.launch_reservations ++ s.next_symbol ∷ [];
  next_symbol = s.next_symbol + 1;
  uuids = s.uuids + 1;
}

module _ (resolve : String → String) (is_absolute : String → Bool)
    (realpath : String → Option String) (is_directory : String → Bool) (uuid : ℕ → String)
    (install : String → Option ℕ) (settings_path : ℕ → String) where
  pub begin-cases :
      (s : SessionLaunchState) (options : SessionLaunchOptions)
      → let r =
          begin_launch resolve is_absolute realpath is_directory uuid install settings_path s
            options in
        ((error : SessionLaunchError) × (r ≡ (denied error, s)))
        ⊎ ((l : Launching) × (r ≡ (waits l, reserve s))
            × (l.reservation ≡ s.next_symbol)
            × (live_session_count s < s.max_sessions))
  unfolding begin_launch
  begin-cases s options = elim (Bool-cases s.has_launcher) [
    | inr l ↦ simp (l, begin_launch) (inl (_, refl))
    | inl l ↦ elim (Bool-cases (ltb (live_session_count s) s.max_sessions)) [
      | inr c ↦ simp (l, c, begin_launch) (inl (_, refl))
      | inl c ↦
          elim (Option-cases (
            resolve_launch_cwd resolve is_absolute realpath is_directory uuid install settings_path
              options.cwd)) [
                | inl d ↦ simp (l, c, d, begin_launch) (inl (_, refl))
                | inr (cwd, d) ↦ simp (l, c, d, begin_launch) (inr (_, refl, refl, ltb→lt _ _ c))
              ]
    ]
  ]
