-- ===== src/Core/Session/Activity.antt =====
-- What a worker's status reports do to the activity that a session shows
-- (packages/core/src/index.ts, `applyWorkerStatus` and `applyWorkerStatusFrame`).
use native.Mathlib.Omega.{arith}
use ccctl.Base.{ℕ, ◌≡◌, refl, ap, inl, inr, String, Option, none, some, Option-cases}
use ccctl.Core.Json.{Json, str, null}
use ccctl.Core.Detail.{
  flatten, truncate, displayable_text, displayable_detail, max_requires_action_detail_length,
}
use ccctl.Core.Detail.Stable.{displayable_text-Tidy}
use ccctl.Core.Frame.{ControlFrame}
use ccctl.Core.Session.{
  Session, SessionActivity, awaits, is_running, is_idle, WorkerStatus, running, requires_action,
  idle, apply_worker_status, apply_worker_status_frame, worker_status_event,
  default_requires_action_detail, requires_action_detail, session_activity_from_status,
  resolved_detail, captured_detail_of,
}

abbrev limit : ℕ
limit = max_requires_action_detail_length

-- A detail that would be shown unchanged if it were displayed again.
abbrev pub IsSettled : SessionActivity → Type 0
IsSettled (awaits d) = displayable_text d max_requires_action_detail_length ≡ some d
IsSettled is_running = Unit {0}
IsSettled is_idle = Unit {0}

default-IsSettled :
    displayable_text default_requires_action_detail limit ≡ some default_requires_action_detail
unfolding displayable_text flatten truncate
default-IsSettled = refl

displayed-IsSettled :
    (detail : Option Json) (d : String)
    → displayable_detail detail limit ≡ some d
    → displayable_text d limit ≡ some d
unfolding displayable_detail
displayed-IsSettled (some (str s)) d e = (displayable_text-Tidy s limit d (omega arith) e).2
displayed-IsSettled (some null) d e = cc
displayed-IsSettled (some _) d e = cc
displayed-IsSettled none d e = cc

requires_action_detail-IsSettled :
    (detail : Option Json)
    → displayable_text (requires_action_detail detail) limit ≡ some (requires_action_detail detail)
unfolding requires_action_detail
requires_action_detail-IsSettled detail = elim (Option-cases (displayable_detail detail limit)) [
  | inl e ↦ rw (e, requires_action_detail) default-IsSettled
  | inr (d, e) ↦ rw (e, requires_action_detail) (displayed-IsSettled detail d e)
]

session_activity_from_status-IsSettled :
    (status : WorkerStatus) (detail : Option Json)
    → IsSettled (session_activity_from_status status detail)
unfolding session_activity_from_status
session_activity_from_status-IsSettled running detail = tt
session_activity_from_status-IsSettled requires_action detail =
    requires_action_detail-IsSettled detail
session_activity_from_status-IsSettled idle detail = tt

-- Whatever a status report carries, the activity that the session then shows has a settled detail.
pub apply_worker_status-IsSettled :
    (s : Session) (status : WorkerStatus) (detail : Option Json) (now : ℕ)
    → IsSettled (apply_worker_status s status detail now).activity
unfolding apply_worker_status
apply_worker_status-IsSettled s status detail now = session_activity_from_status-IsSettled status _

pub apply_worker_status_frame-IsSettled :
    (s : Session) (frame : ControlFrame) (now : ℕ)
    → IsSettled s.activity
    → IsSettled (apply_worker_status_frame s frame now).activity
unfolding apply_worker_status_frame
apply_worker_status_frame-IsSettled s frame now h =
    elim (Option-cases (worker_status_event frame)) [
      | inl e ↦ rw (e, apply_worker_status_frame) h
      | inr (ev, e) ↦
          rw (e, apply_worker_status_frame)
            (apply_worker_status-IsSettled s ev.status ev.detail now)
    ]

-- The detail that a `requires_action` report leaves, written out: its own, if that can be displayed,
-- else the one that the session shows already, else the placeholder.
abbrev pub detail_after : Option String → SessionActivity → String
detail_after (some d) shown = d
detail_after none (awaits d) = d
detail_after none is_running = default_requires_action_detail
detail_after none is_idle = default_requires_action_detail

abbrev pub activity_after : WorkerStatus → Option Json → SessionActivity → SessionActivity
activity_after running detail shown = is_running
activity_after requires_action detail shown =
    awaits (detail_after (displayable_detail detail max_requires_action_detail_length) shown)
activity_after idle detail shown = is_idle

nothing : requires_action_detail none ≡ default_requires_action_detail
unfolding requires_action_detail displayable_detail
nothing = refl

resettled :
    (d : String) → displayable_text d limit ≡ some d → requires_action_detail (some (str d)) ≡ d
unfolding requires_action_detail displayable_detail
resettled d e = rw (e, requires_action_detail, displayable_detail) refl

awaited :
    (shown : SessionActivity) (own : Option String)
    → IsSettled shown
    → ((d : String) → own ≡ some d → displayable_text d limit ≡ some d)
    → requires_action_detail (resolved_detail own (captured_detail_of shown requires_action))
      ≡ detail_after own shown
awaited shown (some d) h k = resettled d (k d refl)
awaited (awaits d) none h k = resettled d h
awaited is_running none h k = nothing
awaited is_idle none h k = nothing

-- A status report replaces the activity by the one that it names. A `requires_action` report shows its
-- own detail if that can be displayed, else the detail that the session shows already (which a report
-- without text does not erase), else the placeholder.
pub activity-apply_worker_status :
    (s : Session) (status : WorkerStatus) (detail : Option Json) (now : ℕ)
    → IsSettled s.activity
    → (apply_worker_status s status detail now).activity ≡ activity_after status detail s.activity
unfolding apply_worker_status
activity-apply_worker_status s running detail now h = refl
activity-apply_worker_status s idle detail now h = refl
activity-apply_worker_status s requires_action detail now h =
    ap awaits (awaited s.activity _ h (displayed-IsSettled detail))
