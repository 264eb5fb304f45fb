-- ===== src/Server/Release/Stop.antt =====
-- When packages/server/src/session-release.ts closes a surface, and when it reports that it is gone.
use native.Mathlib.Omega.{arith}
use ccctl.Base.{◌≡◌, ◌≢◌, ◌↔◌, ◌⊎◌, Bool, true}
use ccctl.Server.Release.{
  SurfaceLiveness, alive_server_owned, taken_over, exited, surface_indeterminate, tear_down,
  completes, LaunchedSession, read_liveness, release_launched_session, stopped,
  stop_launched_session,
}

-- The surfaces that may be closed: the server's own; and, if the operator forces the stop, also those
-- taken over or unclear.
abbrev pub MayClose : SurfaceLiveness → Bool → Type 0
MayClose l force =
    (l ≡ alive_server_owned) ⊎ ((force ≡ true) × ((l ≡ taken_over) ⊎ (l ≡ surface_indeterminate)))

-- A stop closes the surface exactly if it reads as the server's own, or the stop is forced and it reads as
-- taken over or unclear. A surface whose host cannot be reached, or whose reading fails, is never closed.
pub stop-closes_iff :
    (launched : LaunchedSession) (force : Bool)
    → ((stop_launched_session launched force).1 ≡ true)
      ↔ MayClose (read_liveness launched.first) force
unfolding stop_launched_session
stop-closes_iff launched force = (λ e. ground arith, λ h. ground arith)

-- A release closes the surface exactly if it reads as the server's own.
pub release-closes_iff :
    (launched : LaunchedSession)
    → ((release_launched_session launched).1 ≡ true)
      ↔ (read_liveness launched.first ≡ alive_server_owned)
unfolding release_launched_session
release-closes_iff launched = (λ e. ground arith, λ h. ground arith)

-- A stop that reports a torn-down surface has called `close()`, which completed in time, and a second
-- reading did not find the surface running nor its host out of reach; and if the first reading was unclear,
-- the second found the surface gone.
pub stop-torn_down :
    (launched : LaunchedSession) (force : Bool) (l : SurfaceLiveness)
    → (stop_launched_session launched force).0
      ≡ stopped (record { disposition = tear_down; liveness = l })
    → (launched.closing ≡ completes)
      × (l ≡ read_liveness launched.first)
      × ((read_liveness launched.second ≡ exited)
          ⊎ ((read_liveness launched.second ≡ surface_indeterminate) × (l ≢ surface_indeterminate)))
unfolding stop_launched_session
stop-torn_down launched force l e = (ground arith, ground arith, ground arith)
