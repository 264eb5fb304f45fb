-- ===== src/Core/Session/Lifecycle.antt =====
-- A session's life under the operations of packages/core/src/index.ts, in any order.
use native.Mathlib.Omega.{arith}
use ccctl.Base.{ℕ, ◌≤◌, ◌≡◌, refl, ◌∙◌, inl, inr, String, Option, Option-cases, List, [], ◌∷◌, ◌⊎◌}
use ccctl.Core.Json.{Json}
use ccctl.Core.Frame.{ControlFrame}
use ccctl.Core.Session.{
  Session, SessionStatus, registering, connecting, ready, busy, closed, errored, WorkerStatus,
  PermissionMode, apply_worker_status, apply_worker_status_frame, worker_status_event,
  record_heartbeat, mark_session_ready, mark_session_closed, create_session,
  create_registering_session,
}
use ccctl.Core.Session.Activity.{
  IsSettled, apply_worker_status-IsSettled, apply_worker_status_frame-IsSettled,
}

-- What can happen to a session that is there; `registered` is `handleSessionCreate`, which puts a new session under
-- the id that it claims.
pub data Event : Type 0 where
  frame_event : ControlFrame → ℕ → Event
  status_put : WorkerStatus → Option Json → ℕ → Event
  heartbeat : ℕ → Event
  registered : PermissionMode → ℕ → Event
  stream_opened stopped : Event

abbrev pub apply : Session → Event → Session
apply s (frame_event f now) = apply_worker_status_frame s f now
apply s (status_put status detail now) = apply_worker_status s status detail now
apply s (heartbeat now) = record_heartbeat s now
apply s (registered mode now) = create_session s.id mode now
apply s stream_opened = mark_session_ready s
apply s stopped = mark_session_closed s

pub run : Session → List Event → Session
run s [] = s
run s (e ∷ es) = run (apply s e) es

-- A registration meets a session that is registering.
abbrev MayCome : Session → Event → Type 0
MayCome s (registered mode now) = s.status ≡ registering
MayCome s (frame_event f now) = Unit {0}
MayCome s (status_put status detail now) = Unit {0}
MayCome s (heartbeat now) = Unit {0}
MayCome s stream_opened = Unit {0}
MayCome s stopped = Unit {0}

abbrev pub IsClaimed : Session → List Event → Type 0
IsClaimed s [] = Unit {0}
IsClaimed s (e ∷ es) = MayCome s e × IsClaimed (apply s e) es

-- How far a session's life has come.
abbrev pub rank : SessionStatus → ℕ
rank registering = 0
rank connecting = 1
rank ready = 2
rank busy = 2
rank closed = 3
rank errored = 3

abbrev pub IsTerminal : SessionStatus → Type 0
IsTerminal s = (s ≡ closed) ⊎ (s ≡ errored)

-- What an operation keeps of a session.
pub record Keeps (s t : Session) : Type 0 where
  pub id : t.id ≡ s.id
  pub born :
      (1 ≤ rank s.status) ⊎ (rank t.status ≡ 0)
      → (t.auto_resolves_permissions ≡ s.auto_resolves_permissions) × (t.created_at ≡ s.created_at)
  pub forward : rank s.status ≤ rank t.status
  pub terminal : IsTerminal s.status → t.status ≡ s.status

Keeps-refl : (s : Session) → Keeps s s
Keeps-refl s = record {
  id = refl;
  born = λ _. (refl, refl);
  forward = omega arith;
  terminal = λ _. refl;
}

Keeps-of_status :
    (s t : Session)
    → t.id ≡ s.id
    → t.auto_resolves_permissions ≡ s.auto_resolves_permissions
    → t.created_at ≡ s.created_at
    → t.status ≡ s.status
    → Keeps s t
Keeps-of_status s t a b c e = record {
  id = a;
  born = λ _. (b, c);
  forward = rw e (omega arith);
  terminal = λ _. e;
}

apply_worker_status-Keeps :
    (s : Session) (status : WorkerStatus) (detail : Option Json) (now : ℕ)
    → Keeps s (apply_worker_status s status detail now)
unfolding apply_worker_status
apply_worker_status-Keeps s status detail now = Keeps-of_status s _ refl refl refl refl

apply-Keeps : (s : Session) (e : Event) → MayCome s e → Keeps s (apply s e)
unfolding apply_worker_status_frame record_heartbeat mark_session_ready mark_session_closed
    create_session
apply-Keeps s (frame_event f now) m = elim (Option-cases (worker_status_event f)) [
  | inl e ↦ rw (e, apply_worker_status_frame) (Keeps-refl s)
  | inr (ev, e) ↦
      rw (e, apply_worker_status_frame) (apply_worker_status-Keeps s ev.status ev.detail now)
]
apply-Keeps s (status_put status detail now) m = apply_worker_status-Keeps s status detail now
apply-Keeps s (heartbeat now) m = Keeps-of_status s _ refl refl refl refl
apply-Keeps s (registered mode now) m = record {
  id = refl;
  born = λ h. ground (arith, m, h);
  forward = ground (arith, m);
  terminal = λ h. ground (arith, m, h);
}
apply-Keeps s stream_opened m = record {
  id = refl;
  born = λ _. (refl, refl);
  forward = ground arith;
  terminal = ground arith;
}
apply-Keeps s stopped m = record {
  id = refl;
  born = λ _. (refl, refl);
  forward = ground arith;
  terminal = ground arith;
}

-- Whatever happens to a session, its registration included, and in whatever order: its id stays; its creation
-- time and whether it answers permission prompts by itself stay once it is no longer registering, and as long
-- as it is; its status never goes back, from registering over connecting and ready to closed or errored; and
-- once it is closed or errored it stays exactly that. Whenever it is registered it is registering: a
-- registration claims the session of a launch that waits.
pub run-Keeps : (s : Session) (es : List Event) → IsClaimed s es → Keeps s (run s es)
unfolding run
run-Keeps s [] c = Keeps-refl s
run-Keeps s (e ∷ es) c =
    let one = apply-Keeps s e c.0 in
    let rest = run-Keeps (apply s e) es c.1 in
    record {
      id = rest.id ∙ one.id;
      born = λ h.
          let (a, b) = one.born (ground (arith, h, one.forward, rest.forward)) in
          let (c, d) = rest.born (ground (arith, h, one.forward, rest.forward)) in (c ∙ a, d ∙ b);
      forward = omega (arith, one.forward, rest.forward);
      terminal = λ h. rest.terminal (ground (arith, one.terminal h)) ∙ one.terminal h;
    }

apply-IsSettled : (s : Session) (e : Event) → IsSettled s.activity → IsSettled (apply s e).activity
unfolding record_heartbeat mark_session_ready mark_session_closed create_session
apply-IsSettled s (frame_event f now) h = apply_worker_status_frame-IsSettled s f now h
apply-IsSettled s (status_put status detail now) h =
    apply_worker_status-IsSettled s status detail now
apply-IsSettled s (heartbeat now) h = h
apply-IsSettled s (registered mode now) h = tt
apply-IsSettled s stream_opened h = h
apply-IsSettled s stopped h = h

run_from-IsSettled :
    (s : Session) (es : List Event) → IsSettled s.activity → IsSettled (run s es).activity
unfolding run
run_from-IsSettled s [] h = h
run_from-IsSettled s (e ∷ es) h = run_from-IsSettled (apply s e) es (apply-IsSettled s e h)

-- After any history of a session that was launched, what it shows as the thing that it waits for is
-- text that `displayableDetail` leaves unchanged.
pub run-IsSettled :
    (id : String) (mode : PermissionMode) (now : ℕ) (es : List Event)
    → IsSettled (run (create_registering_session id mode now) es).activity
unfolding create_registering_session
run-IsSettled id mode now es = run_from-IsSettled _ es tt
