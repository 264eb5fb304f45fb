-- ===== src/Server/Stop/Outcome.antt =====
-- What a stop of packages/server/src/ui-session-stop.ts leaves of a session and its surface.
use native.Mathlib.Omega.{arith}
use mathlib.Core.Logic.{◌⊎◌, inl, inr}
use ccctl.Base.{
  ◌≡◌, refl, sym, ap, ◌∙◌, String, Bool, true, false, none, some, Option-cases, Bool-cases,
}
use ccctl.Base.Dict.{get, delete, has, delete-absent}
use ccctl.Core.Json.{Json}
use ccctl.Core.Session.{Session, mark_session_closed}
use ccctl.Server.Close.{
  SessionCloseState, close_session, close_session-known, final_status, mark_session_closed_lem,
}
use ccctl.Server.Pending.{consume_pending_launch}
use ccctl.Server.Release.{
  SurfaceLiveness, ReleaseDisposition, LaunchedSession, StopFailure, StopResult, stopped, threw,
  leave_running, tear_down, no_op, exited, completes, read_liveness, stop_launched_session,
}
use ccctl.Server.Release.Stop.{MayClose}
use ccctl.Server.Worker.{WorkerChannelState, reap_worker_channel}
use ccctl.Server.Worker.Evictions.{reap-lem, close_sessions}
use ccctl.Server.Stop.{
  StopFailureCode, SessionStopError, raised, unknown_session, unknown_session_reason,
  StopOutcomeWire, was_stopped, already_exited, ended, refused, SessionStopState, forget_surface,
  consume, reap, holds_live, no_surface, no_surface_reason, ambiguous_surface,
  ambiguous_surface_reason, stop_check, forget_session, finish_stop, stop_session,
}

consume_lem :
    (s : SessionStopState) (id : String)
    → let t = consume s id in
      (t.channels ≡ s.channels)
      × (t.launched_surfaces ≡ s.launched_surfaces)
      × (t.pending_launches ≡ delete id s.pending_launches)
unfolding consume
consume_lem s id = elim (Option-cases (get id s.pending_launches)) [
  | inl e ↦ rw (e, consume_pending_launch) (refl, refl, sym (delete-absent id s.pending_launches e))
  | inr (p, e) ↦ rw (e, consume_pending_launch) (refl, refl, refl)
]

reap_lem :
    (s : SessionStopState) (id : String)
    → let t = reap s id in
      (t.channels.hub.sessions ≡ s.channels.hub.sessions)
      × (t.channels.worker_channels ≡ delete id s.channels.worker_channels)
unfolding reap
reap_lem s id = elim (Option-cases (get id s.channels.worker_channels)) [
  | inl e ↦ rw (e, reap_worker_channel) (refl, sym (delete-absent id s.channels.worker_channels e))
  | inr (ref, e) ↦ let r = reap-lem s.channels id ref e in (r.0, r.1)
]

-- Nothing is left under the session's id, and all else that these maps hold.
pub record Forgotten (s t : SessionStopState) (id : String) : Type 0 where
  pub sessions : t.channels.hub.sessions ≡ delete id s.channels.hub.sessions
  pub channels : t.channels.worker_channels ≡ delete id s.channels.worker_channels
  pub pending : t.pending_launches ≡ delete id s.pending_launches
  pub surfaces : t.launched_surfaces ≡ delete id s.launched_surfaces

-- What the surface did for each of the two outcomes that are reported.
abbrev pub Reported : StopOutcomeWire → LaunchedSession → Bool → Bool → Type 0
Reported was_stopped launched force called =
    (called ≡ true) × (launched.closing ≡ completes) × MayClose (read_liveness launched.first) force
Reported already_exited launched force called =
    (called ≡ false) × (read_liveness launched.first ≡ exited)

abbrev Did : ReleaseDisposition → LaunchedSession → Bool → Bool → Type 0
Did leave_running launched force called = Unit {0}
Did tear_down launched force called = Reported was_stopped launched force called
Did no_op launched force called = Reported already_exited launched force called

abbrev pub Finished :
    SessionStopState
    → SessionStopState
    → String
    → LaunchedSession
    → Bool
    → Bool
    → StopOutcomeWire
    → Session
    → Type 0
Finished s t id launched force called how session =
    Forgotten s t id
    × Reported how launched force called
    × (old : Session) × (get id s.channels.hub.sessions ≡ some old)
    × (session ≡ record old { status = final_status old.status })

-- The codes of the checks that come before the surface is asked.
abbrev pub is_early : StopFailureCode → Bool
is_early unknown_session = true
is_early no_surface = true
is_early ambiguous_surface = true
is_early _ = false

pub check-cases :
    (s : SessionStopState) (id : String)
    → ((error : SessionStopError) × (stop_check s id ≡ inl error) × (is_early error.code ≡ true))
      ⊎ ((launched : LaunchedSession) × (stop_check s id ≡ inr launched)
          × (get id s.launched_surfaces ≡ some launched))
unfolding stop_check
check-cases s id = elim (Bool-cases (has id s.channels.hub.sessions)) [
  | inr h ↦ rw h (inl (raised unknown_session (unknown_session_reason id), refl, refl))
  | inl h ↦ elim (Option-cases (get id s.launched_surfaces)) [
    | inl g ↦ rw (h, g) (inl (raised no_surface (no_surface_reason id), refl, refl))
    | inr (launched, g) ↦ elim (Bool-cases (holds_live s id)) [
      | inl m ↦
          rw (h, g, m) (inl (raised ambiguous_surface (ambiguous_surface_reason id), refl, refl))
      | inr m ↦ rw (h, g, m) (inr (launched, refl, refl))
    ]
  ]
]

module _ (stringify : Json → String) where
  closed_sessions :
      (s : SessionCloseState) (id : String)
      → (close_session stringify s id).1.sessions ≡ delete id s.sessions
  unfolding close_session
  closed_sessions s id = elim (Option-cases (get id s.sessions)) [
    | inl e ↦ rw (e, close_session) (sym (delete-absent id s.sessions e))
    | inr (session, e) ↦ close_sessions stringify s id session e
  ]

  abbrev emptied : SessionStopState → String → SessionStopState
  emptied s id = reap (consume (forget_surface s id) id) id

  emptied_lem :
      (s : SessionStopState) (id : String)
      → let t = emptied s id in
        (t.channels.hub.sessions ≡ s.channels.hub.sessions)
        × (t.channels.worker_channels ≡ delete id s.channels.worker_channels)
        × (t.pending_launches ≡ delete id s.pending_launches)
        × (t.launched_surfaces ≡ delete id s.launched_surfaces)
  unfolding reap
  emptied_lem s id =
      let c = consume_lem (forget_surface s id) id in
      let r = reap_lem (consume (forget_surface s id) id) id in
      (
        r.0 ∙ ap (λ (w : WorkerChannelState). w.hub.sessions) c.0,
        r.1 ∙ ap (λ (w : WorkerChannelState). delete id w.worker_channels) c.0,
        c.2,
        c.1,
      )

  forget-Forgotten :
      (s : SessionStopState) (id : String) (outcome : StopOutcomeWire)
      → Forgotten s (forget_session stringify s id outcome).1 id
  unfolding forget_session
  forget-Forgotten s id outcome =
      let m = emptied_lem s id in
      let c = closed_sessions (emptied s id).channels.hub id ∙ ap (delete id) m.0 in
      elim (Option-cases (close_session stringify (emptied s id).channels.hub id).0) [
        | inl e ↦
            rw (e, forget_session)
              (record { sessions = c; channels = m.1; pending = m.2; surfaces = m.3 })
        | inr (closed, e) ↦
            rw (e, forget_session)
              (record { sessions = c; channels = m.1; pending = m.2; surfaces = m.3 })
      ]

  pub forget-known :
      (s : SessionStopState) (id : String) (outcome : StopOutcomeWire) (old : Session)
      → get id s.channels.hub.sessions ≡ some old
      → (forget_session stringify s id outcome).0 ≡ ended outcome (mark_session_closed old)
  unfolding forget_session
  forget-known s id outcome old g =
      rw
        (
          close_session-known stringify (emptied s id).channels.hub id old
              (ap (get id) (emptied_lem s id).0 ∙ g),
          forget_session,
        )
        refl

  pub forget-unknown :
      (s : SessionStopState) (id : String) (outcome : StopOutcomeWire)
      → get id s.channels.hub.sessions ≡ none
      → (forget_session stringify s id outcome).0
        ≡ refused (raised unknown_session (unknown_session_reason id))
  unfolding forget_session close_session
  forget-unknown s id outcome g =
      let k : get id (emptied s id).channels.hub.sessions ≡ none =
        ap (get id) (emptied_lem s id).0 ∙ g in
      rw (k, close_session, forget_session) refl

  -- How the stop ends once the surface is gone: by whether the session is still known then.
  forget-end :
      (s : SessionStopState) (id : String) (outcome : StopOutcomeWire) (how : StopOutcomeWire)
      (session : Session)
      → (forget_session stringify s id outcome).0 ≡ ended how session
      → (how ≡ outcome)
        × (old : Session) × (get id s.channels.hub.sessions ≡ some old)
        × (session ≡ record old { status = final_status old.status })
  forget-end s id outcome how session e = elim (Option-cases (get id s.channels.hub.sessions)) [
    | inl g ↦ absurd (let k = forget-unknown s id outcome g in cc)
    | inr (old, g) ↦
        let k = forget-known s id outcome old g in
        let closed : session ≡ mark_session_closed old = cc in
        (cc, old, g, closed ∙ mark_session_closed_lem old)
  ]

  surface_lem :
      (launched : LaunchedSession) (force : Bool) (d : ReleaseDisposition) (l : SurfaceLiveness)
      → (stop_launched_session launched force).0
        ≡ stopped (record { disposition = d; liveness = l })
      → Did d launched force (stop_launched_session launched force).1
  unfolding stop_launched_session
  surface_lem launched force leave_running l e = tt
  surface_lem launched force tear_down l e = (ground arith, ground arith, ground arith)
  surface_lem launched force no_op l e = (ground arith, ground arith)

  finish-end :
      (s : SessionStopState) (id : String) (launched : LaunchedSession) (force : Bool)
      (d : ReleaseDisposition) (l : SurfaceLiveness) (how : StopOutcomeWire) (session : Session)
      → Did d launched force (stop_launched_session launched force).1
      → (finish_stop stringify s id launched (stopped (record { disposition = d; liveness = l }))).0
        ≡ ended how session
      → Finished s
          (finish_stop stringify s id launched
            (stopped (record { disposition = d; liveness = l }))).1
          id
          launched
          force
          (stop_launched_session launched force).1
          how
          session
  unfolding finish_stop
  finish-end s id launched force leave_running l how session did e = absurd (cc)
  finish-end s id launched force tear_down l how session did e =
      let (same, old, g, k) = forget-end s id was_stopped how session e in
      (forget-Forgotten s id was_stopped, rw same did, old, g, k)
  finish-end s id launched force no_op l how session did e =
      let (same, old, g, k) = forget-end s id already_exited how session e in
      (forget-Forgotten s id already_exited, rw same did, old, g, k)

  result-cases :
      (r : StopResult)
      → ((failure : StopFailure) × (r ≡ threw failure))
        ⊎ ((d : ReleaseDisposition) × (l : SurfaceLiveness) × (r
              ≡ stopped (record { disposition = d; liveness = l })))
  result-cases (threw failure) = inl (failure, refl)
  result-cases (stopped o) = inr (o.disposition, o.liveness, refl)

  -- A stop that reports success has closed a surface that the operator may close, in time, or found it gone
  -- already. Then the session, its channel, its pending launch and its surface are forgotten, nothing else of
  -- these maps is, and the session that is reported is the one that was known when the surface had
  -- answered, as an errored one if it was that and otherwise as a closed one. The state in which the surface
  -- has answered is any state.
  pub stop_session-ends :
      (s later : SessionStopState) (id : String) (force : Bool) (how : StopOutcomeWire)
      (session : Session)
      → (stop_session stringify s later id force).0 ≡ ended how session
      → (launched : LaunchedSession) × (get id s.launched_surfaces ≡ some launched)
        × Finished later
            (stop_session stringify s later id force).1
            id
            launched
            force
            (stop_session stringify s later id force).2
            how
            session
  unfolding stop_session finish_stop
  stop_session-ends s later id force how session e = elim (check-cases s id) [
    | inl (error, c, _) ↦ absurd (let k = rw (c, stop_session) at e in cc)
    | inr (launched, c, g) ↦ elim (result-cases (stop_launched_session launched force).0) [
      | inl (failure, r) ↦ absurd (let k = rw (c, r, stop_session) at e in cc)
      | inr (d, l, r) ↦
          rw (c, r, stop_session)
            (
              launched,
              g,
              finish-end later id launched force d l how session (surface_lem launched force d l r)
                  (rw (c, r, stop_session) at e),
            )
    ]
  ]

  -- A stop that does not end the session, while the session is known when the surface has answered,
  -- changes nothing: the state is the one in which the surface has answered, or the first one if the surface
  -- was not asked.
  pub stop_session-refuses :
      (s later : SessionStopState) (id : String) (force : Bool) (session : Session)
      → get id later.channels.hub.sessions ≡ some session
      → let (end, after, called) = stop_session stringify s later id force in
        ((how : StopOutcomeWire) × (end ≡ ended how (mark_session_closed session)))
        ⊎ (after ≡ later)
        ⊎ ((after ≡ s) × (called ≡ false))
  unfolding stop_session finish_stop
  stop_session-refuses s later id force session known = elim (check-cases s id) [
    | inl (error, c, _) ↦ rw (c, stop_session) (inr (inr (refl, refl)))
    | inr (launched, c, g) ↦ elim (result-cases (stop_launched_session launched force).0) [
      | inl (failure, r) ↦ rw (c, r, stop_session, finish_stop) (inr (inl refl))
      | inr (leave_running, l, r) ↦ rw (c, r, stop_session, finish_stop) (inr (inl refl))
      | inr (tear_down, l, r) ↦
          rw (c, r, stop_session, finish_stop)
            (inl (was_stopped, forget-known later id was_stopped session known))
      | inr (no_op, l, r) ↦
          rw (c, r, stop_session, finish_stop)
            (inl (already_exited, forget-known later id already_exited session known))
    ]
  ]
