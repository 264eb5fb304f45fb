-- ===== src/Server/Pending/Preserved.antt =====
-- Each operation of packages/server/src/pending-launch.ts keeps the groups of pending launches marked.
use native.Mathlib.Omega.{arith}
use ccctl.Base.{
  ◌<◌, ◌≡◌, refl, sym, subst, inl, inr, String, Bool, true, false, not, ◌&&◌, Option, none, some,
  length, eq_iff, Bool-cases, Option-cases, ltb,
}
use ccctl.Base.Dict.{Dict, get, set, delete}
use ccctl.Core.Session.{PermissionMode}
use ccctl.Server.Release.{
  ReleaseDisposition, tear_down, leave_running, no_op, release_launched_session,
}
use ccctl.Server.Pending.{
  PendingLaunch, PendingLaunchState, same_group, as_ambiguous, as_live, mark_ambiguous_group,
  mark_group_may_hold_live_worker, consume_pending_launch, drop_placeholder, take_claim,
  evict_pending_launch, forget_released,
}
use ccctl.Server.Pending.Marking.{change_where, put_all-where, change_where-Keyed, set-Keyed}
use ccctl.Server.Pending.Groups.{
  group, IsMarked, IsWellFormed, Narrows-marked, set-Narrows, change-Narrows, marked-group,
  mode_eq→eq, delete-IsWellFormed,
}

and-true : (a b : Bool) → (a && b) ≡ true → (a ≡ true) × (b ≡ true)
and-true true b e = (refl, e)
and-true false b e = cc

own-group :
    (cwd : String) (mode : PermissionMode) (p : PendingLaunch)
    → same_group cwd mode p ≡ true
    → (p.cwd ≡ cwd) × (p.permission_mode ≡ mode)
own-group cwd mode p e =
    let both = and-true _ _ e in
    ((eq_iff p.cwd cwd).0 both.0, mode_eq→eq p.permission_mode mode both.1)

module _ (p : PendingLaunch) (m : Dict PendingLaunch) (w : IsWellFormed m) where
  placed-IsMarked :
      length (group p.cwd p.permission_mode (set p.session_id p m)) < 2
      → IsMarked (set p.session_id p m)
  placed-IsMarked small cwd mode = elim (Bool-cases (same_group cwd mode p)) [
    | inl e ↦ let (c, d) = own-group cwd mode p e in inl (rw (sym c, sym d) small)
    | inr e ↦
        Narrows-marked cwd mode m (set p.session_id p m) (set-Narrows cwd mode p.session_id p m e)
          (w.1 cwd mode)
  ]

  abbrev regrouped : Dict PendingLaunch
  regrouped = change_where (same_group p.cwd p.permission_mode) as_ambiguous (set p.session_id p m)

  regrouped-IsMarked : IsMarked regrouped
  regrouped-IsMarked cwd mode = elim (Bool-cases (same_group cwd mode p)) [
    | inl e ↦
        let (c, d) = own-group cwd mode p e in
        inr (rw (sym c, sym d) (marked-group p.cwd p.permission_mode (set p.session_id p m)))
    | inr e ↦
        Narrows-marked cwd mode (set p.session_id p m) regrouped
          (change-Narrows (same_group p.cwd p.permission_mode) as_ambiguous cwd mode (λ q. refl)
            (λ q h. refl) (set p.session_id p m))
          (Narrows-marked cwd mode m (set p.session_id p m)
            (set-Narrows cwd mode p.session_id p m e) (w.1 cwd mode))
  ]

  pub place-IsWellFormed :
      IsWellFormed (mark_ambiguous_group (set p.session_id p m) p.cwd p.permission_mode)
  unfolding mark_ambiguous_group
  place-IsWellFormed =
      let keyed = set-Keyed p m w.0 in
      elim (Bool-cases (ltb (length (group p.cwd p.permission_mode (set p.session_id p m))) 2)) [
        | inl e ↦ rw e (keyed, placed-IsMarked (ground arith))
        | inr e ↦
            rw
              (
                e,
                put_all-where (same_group p.cwd p.permission_mode) as_ambiguous
                    (set p.session_id p m) keyed,
              )
              (
                change_where-Keyed (same_group p.cwd p.permission_mode) as_ambiguous (λ q. refl)
                    (set p.session_id p m) keyed,
                regrouped-IsMarked,
              )
      ]

live-IsWellFormed :
    (m : Dict PendingLaunch) (cwd : String) (mode : PermissionMode)
    → IsWellFormed m
    → IsWellFormed (mark_group_may_hold_live_worker m cwd mode)
unfolding mark_group_may_hold_live_worker
live-IsWellFormed m cwd mode w =
    let t : PendingLaunch → Bool = λ p. same_group cwd mode p && not p.may_hold_live_worker in
    rw (put_all-where t as_live m w.0) (
      change_where-Keyed t as_live (λ q. refl) m w.0,
      λ c d.
          Narrows-marked c d m (change_where t as_live m)
            (change-Narrows t as_live c d (λ q. refl) (λ q h. h) m) (w.1 c d),
    )

pub consume-pending :
    (s : PendingLaunchState) (id : String)
    → (consume_pending_launch s id).1.pending_launches ≡ elim (get id s.pending_launches) [
      | none ↦ s.pending_launches
      | some p ↦ delete id s.pending_launches
    ]
unfolding consume_pending_launch
consume-pending s id = elim (Option-cases (get id s.pending_launches)) [
  | inl e ↦ rw (e, consume_pending_launch) refl
  | inr (p, e) ↦ rw (e, consume_pending_launch) refl
]

pub consume-IsWellFormed :
    (s : PendingLaunchState) (id : String)
    → IsWellFormed s.pending_launches
    → IsWellFormed (consume_pending_launch s id).1.pending_launches
consume-IsWellFormed s id w =
    subst IsWellFormed (sym (consume-pending s id))
      (elim (get id s.pending_launches)
        as (λ o.
          IsWellFormed
            (elim o [ none ↦ s.pending_launches | some p ↦ delete id s.pending_launches ])) [
              | none ↦ w
              | some p ↦ delete-IsWellFormed id s.pending_launches w
            ])

pub take-IsWellFormed :
    (s : PendingLaunchState) (p : PendingLaunch) (cwd : String)
    → IsWellFormed s.pending_launches
    → IsWellFormed (take_claim s p cwd).1.pending_launches
unfolding take_claim drop_placeholder
take-IsWellFormed s p cwd w =
    let w' = consume-IsWellFormed s p.session_id w in
    elim (Bool-cases p.ambiguous) [
      | inl e ↦ rw e (live-IsWellFormed _ cwd p.permission_mode w')
      | inr e ↦ rw e w'
    ]

forget-pending :
    (s : PendingLaunchState) (id : String) (o : Option ReleaseDisposition)
    → (forget_released s id o).pending_launches ≡ s.pending_launches
unfolding forget_released
forget-pending s id none = refl
forget-pending s id (some tear_down) = refl
forget-pending s id (some leave_running) = refl
forget-pending s id (some no_op) = refl

pub evict-pending :
    (s : PendingLaunchState) (id : String)
    → (evict_pending_launch s id).0.pending_launches
      ≡ (consume_pending_launch s id).1.pending_launches
unfolding drop_placeholder evict_pending_launch consume_pending_launch
evict-pending s id = elim (Option-cases (get id s.pending_launches)) [
  | inl e ↦ rw (e, evict_pending_launch, consume_pending_launch) refl
  | inr (p, e) ↦ elim (Bool-cases p.may_hold_live_worker) [
    | inl d ↦ rw (e, d, evict_pending_launch) refl
    | inr d ↦
        rw (e, d, evict_pending_launch)
          (forget-pending (drop_placeholder (consume_pending_launch s id).1 id) id
            (release_launched_session p.launched).0)
  ]
]

pub evict-IsWellFormed :
    (s : PendingLaunchState) (id : String)
    → IsWellFormed s.pending_launches
    → IsWellFormed (evict_pending_launch s id).0.pending_launches
evict-IsWellFormed s id w = rw (evict-pending s id) (consume-IsWellFormed s id w)
