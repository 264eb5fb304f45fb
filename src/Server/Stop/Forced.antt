-- ===== src/Server/Stop/Forced.antt =====
-- The client's offer to force a stop, packages/web-ui/src/stop.js, against what the server does when it is forced,
-- packages/server/src/ui-session-stop.ts.
use native.Mathlib.Omega.{arith}
use mathlib.Core.Logic.{inl, inr}
use ccctl.Base.{
  str_eq, if◌then◌else◌, ◌≡◌, ◌↔◌, refl, String, Bool, true, false, some, ℕ, Option-cases,
}
use ccctl.Base.Dict.{get}
use ccctl.Core.Json.{Json, str}
use ccctl.Server.Body.{ok}
use ccctl.Server.Release.{
  SurfaceLiveness, ReleaseDisposition, LaunchedSession, StopResult, stopped, threw, leave_running,
  tear_down, no_op, stop_launched_session,
}
use ccctl.Server.Stop.{
  StopFailureCode, unknown_session, no_surface, ambiguous_surface, taken_over, liveness_unknown,
  liveness_indeterminate, malformed_request, stop_failed, code_name, was_stopped, already_exited,
  StopEnd, ended, refused, broke, SessionStopState, forget_session, finish_stop, stop_session,
  StopOutcomeWire, refusal,
}
use ccctl.Server.Stop.Handler.{handle_session_stop, write_stop_failure, stop_reply}
use ccctl.Server.Stop.Outcome.{is_early, check-cases, forget-known, forget-unknown}
use ccctl.Web.Fields.{payload_field, trimmed_value}
use ccctl.Web.Stop.{stop_request, stop_failure_code, stop_failure, is_forceable}

abbrev offered : StopEnd → Bool
offered (ended outcome session) = false
offered (refused error) = is_forceable (code_name error.code)
offered (broke failure) = false

coded :
    (c : StopFailureCode)
    → (let code = trimmed_value (some (str (code_name c))) in
        is_forceable (if str_eq code "" then "unknown" else code))
      ≡ is_forceable (code_name c)
unfolding trimmed_value code_name is_forceable
coded unknown_session = refl
coded no_surface = refl
coded ambiguous_surface = refl
coded taken_over = refl
coded liveness_unknown = refl
coded liveness_indeterminate = refl
coded malformed_request = refl
coded stop_failed = refl

-- What the client reads in the answer is what the server meant by it.
offered_reply :
    (id : String) (n : ℕ) (end : StopEnd)
    → (stop_failure n (stop_reply id end).body).forceable ≡ offered end
unfolding stop_failure stop_failure_code stop_reply write_stop_failure is_forceable payload_field
    get
offered_reply id n (ended outcome session) = refl
offered_reply id n (refused error) = coded error.code
offered_reply id n (broke failure) = refl

early_forceable : (c : StopFailureCode) → is_early c ≡ true → is_forceable (code_name c) ≡ false
unfolding is_forceable code_name
early_forceable unknown_session e = refl
early_forceable no_surface e = refl
early_forceable ambiguous_surface e = refl
early_forceable _ e = cc

abbrev waits : StopResult → Bool
waits (threw failure) = false
waits (stopped o) = elim o.disposition [
  | leave_running ↦ elim o.liveness [
    | SurfaceLiveness.taken_over ↦ true
    | SurfaceLiveness.surface_indeterminate ↦ true
    | _ ↦ false
  ]
  | _ ↦ false
]

waits_iff :
    (launched : LaunchedSession)
    → (waits (stop_launched_session launched false).0 ≡ true) ↔ (
        ((stop_launched_session launched false).1 ≡ false)
        × ((stop_launched_session launched true).1 ≡ true))
unfolding stop_launched_session
waits_iff launched = (λ e. ground arith, λ h. ground arith)

module _ (stringify : Json → String) where
  forget_offered :
      (s : SessionStopState) (id : String) (how : StopOutcomeWire)
      → offered (forget_session stringify s id how).0 ≡ false
  unfolding is_forceable code_name
  forget_offered s id how = elim (Option-cases (get id s.channels.hub.sessions)) [
    | inl g ↦ rw (forget-unknown stringify s id how g) refl
    | inr (old, g) ↦ rw (forget-known stringify s id how old g) refl
  ]

  disposed :
      (s : SessionStopState) (id : String) (launched : LaunchedSession) (d : ReleaseDisposition)
      (l : SurfaceLiveness)
      → let r = stopped (record { disposition = d; liveness = l }) in
        offered (finish_stop stringify s id launched r).0 ≡ waits r
  unfolding finish_stop refusal is_forceable code_name
  disposed s id launched tear_down l = forget_offered s id was_stopped
  disposed s id launched no_op l = forget_offered s id already_exited
  disposed s id launched leave_running SurfaceLiveness.alive_server_owned = refl
  disposed s id launched leave_running SurfaceLiveness.taken_over = refl
  disposed s id launched leave_running SurfaceLiveness.exited = refl
  disposed s id launched leave_running SurfaceLiveness.host_unreachable = refl
  disposed s id launched leave_running SurfaceLiveness.surface_indeterminate = refl

  finish_offered :
      (s : SessionStopState) (id : String) (launched : LaunchedSession) (r : StopResult)
      → offered (finish_stop stringify s id launched r).0 ≡ waits r
  unfolding finish_stop refusal is_forceable code_name
  finish_offered s id launched (threw failure) = refl
  finish_offered s id launched (stopped o) = disposed s id launched o.disposition o.liveness

  stop_offered :
      (s later : SessionStopState) (id : String)
      → (offered (stop_session stringify s later id false).0 ≡ true) ↔ (
          ((stop_session stringify s later id false).2 ≡ false)
          × ((stop_session stringify s later id true).2 ≡ true))
  unfolding stop_session
  stop_offered s later id = elim (check-cases s id) [
    | inl (error, c, early) ↦
        let no = early_forceable error.code early in rw (c, stop_session) ((λ e. cc), (λ h. cc h.1))
    | inr (launched, c, g) ↦
        rw (c, stop_session)
          (rw (finish_offered later id launched (stop_launched_session launched false).0)
            (waits_iff launched))
  ]

  handled :
      (s later : SessionStopState) (id : String) (force : Bool)
      → let reply = handle_session_stop stringify "POST" s later id (ok (stop_request force)) in
        let run = stop_session stringify s later id force in
        (reply.0 ≡ stop_reply id run.0) × (reply.2 ≡ run.2)
  unfolding handle_session_stop stop_request get
  handled s later id true = (refl, refl)
  handled s later id false = (refl, refl)

  -- The client offers to force a stop that was not forced exactly if the stop left the surface alone and a
  -- forced one closes it, whatever the state and whatever the surface answers.
  pub forceable-closes :
      (s later : SessionStopState) (id : String)
      → let ask = λ (force : Bool).
        handle_session_stop stringify "POST" s later id (ok (stop_request force)) in
        ((stop_failure (ask false).0.status (ask false).0.body).forceable ≡ true)
        ↔ (((ask false).2 ≡ false) × ((ask true).2 ≡ true))
  forceable-closes s later id =
      let plain = handled s later id false in
      let forced = handled s later id true in
      rw (plain.0, plain.1, forced.1, offered_reply id) (stop_offered s later id)
