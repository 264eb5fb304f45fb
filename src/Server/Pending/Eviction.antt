-- ===== src/Server/Pending/Eviction.antt =====
-- The timeout of packages/server/src/pending-launch.ts: a launch that never registered is given up.
use native.Mathlib.Omega.{arith}
use ccctl.Base.{
  ◌≡◌, refl, inl, inr, ◌↔◌, ◌⊎◌, ◌≢◌, String, true, false, Option, none, some, if◌then◌else◌,
  Bool-cases,
}
use ccctl.Base.Dict.{get, delete, get-delete_self}
use ccctl.Server.Release.{
  LaunchedSession, ReleaseDisposition, alive_server_owned, exited, tear_down, leave_running, no_op,
  release_launched_session, read_liveness, decide_release,
}
use ccctl.Server.Release.Stop.{release-closes_iff}
use ccctl.Server.Pending.{
  PendingLaunch, PendingLaunchState, evict_pending_launch, consume_pending_launch, drop_placeholder,
  forget_released, clear_timeout,
}

-- The state without the launch and its placeholder.
abbrev gone : PendingLaunchState → String → PendingLaunch → PendingLaunchState
gone s id p =
    drop_placeholder
      (record s {
        pending_launches = delete id s.pending_launches;
        armed = clear_timeout p.timer s.armed;
      })
      id

consume-gone :
    (s : PendingLaunchState) (id : String) (p : PendingLaunch)
    → get id s.pending_launches ≡ some p
    → (consume_pending_launch s id).1 ≡ record s {
      pending_launches = delete id s.pending_launches;
      armed = clear_timeout p.timer s.armed;
    }
unfolding consume_pending_launch
consume-gone s id p e = rw (e, consume_pending_launch) refl

evict-gone :
    (s : PendingLaunchState) (id : String) (p : PendingLaunch)
    → get id s.pending_launches ≡ some p
    → evict_pending_launch s id ≡ (
        if p.may_hold_live_worker then (gone s id p, false) else (
          forget_released (gone s id p) id (release_launched_session p.launched).0,
          (release_launched_session p.launched).1,
        ))
unfolding evict_pending_launch
evict-gone s id p e = rw (e, evict_pending_launch) (rw (consume-gone s id p e) refl)

forget-same :
    (s : PendingLaunchState) (id : String) (o : Option ReleaseDisposition)
    → ((forget_released s id o).pending_launches ≡ s.pending_launches)
      × ((forget_released s id o).sessions ≡ s.sessions)
unfolding forget_released
forget-same s id none = (refl, refl)
forget-same s id (some tear_down) = (refl, refl)
forget-same s id (some leave_running) = (refl, refl)
forget-same s id (some no_op) = (refl, refl)

-- A launch that times out is pending no more, and its placeholder is gone from the sessions.
-- Its surface is closed exactly if the launch is not marked as holding a live worker and the surface reads
-- as the server's own.
pub evict-closes_iff :
    (s : PendingLaunchState) (id : String) (p : PendingLaunch)
    → get id s.pending_launches ≡ some p
    → (get id (evict_pending_launch s id).0.pending_launches ≡ none)
      × (get id (evict_pending_launch s id).0.sessions ≡ none)
      × (((evict_pending_launch s id).1 ≡ true) ↔ (
          (p.may_hold_live_worker ≡ false) × (read_liveness p.launched.first ≡ alive_server_owned)))
unfolding drop_placeholder
evict-closes_iff s id p e =
    let same = forget-same (gone s id p) id (release_launched_session p.launched).0 in
    let d = get-delete_self id s.pending_launches in
    let f = get-delete_self id s.sessions in
    elim (Bool-cases p.may_hold_live_worker) [
      | inl l ↦ rw (evict-gone s id p e, l) (d, f, ((λ h. cc), (λ h. cc h.0)))
      | inr l ↦
          rw (evict-gone s id p e, l)
            (
              rw same.0 d,
              rw same.1 f,
              (
                (λ h. (refl, (release-closes_iff p.launched).0 h)),
                (λ h. (release-closes_iff p.launched).1 h.1),
              ),
            )
    ]

left_running :
    (launched : LaunchedSession)
    → read_liveness launched.first ≢ alive_server_owned
    → read_liveness launched.first ≢ exited
    → release_launched_session launched ≡ (some leave_running, false)
unfolding release_launched_session decide_release
left_running launched own left = ground arith

-- A launch that is marked as holding a live worker, or whose surface reads as neither the server's own nor exited, keeps
-- its surface when it times out: the surface is not closed, and no surface is forgotten.
pub evict-leaves :
    (s : PendingLaunchState) (id : String) (p : PendingLaunch)
    → get id s.pending_launches ≡ some p
    → (p.may_hold_live_worker ≡ true)
      ⊎ ((read_liveness p.launched.first ≢ alive_server_owned)
          × (read_liveness p.launched.first ≢ exited))
    → ((evict_pending_launch s id).1 ≡ false)
      × ((evict_pending_launch s id).0.launched_surfaces ≡ s.launched_surfaces)
unfolding drop_placeholder forget_released
evict-leaves s id p e h = elim (Bool-cases p.may_hold_live_worker) [
  | inl l ↦ rw (evict-gone s id p e, l) (refl, refl)
  | inr l ↦ elim h [
    | inl k ↦ (let no : ⊥ = cc in absurd no)
    | inr (own, left) ↦ rw (evict-gone s id p e, l, left_running p.launched own left) (refl, refl)
  ]
]
