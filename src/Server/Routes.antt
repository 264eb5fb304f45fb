-- ===== src/Server/Routes.antt =====
-- Which handler a path belongs to: `handleRequest` of packages/server/src/index.ts and the matchers of ui-sessions.ts,
-- environments-bridge.ts and worker-channel.ts.
pub mod RoundTrip
use ccctl.Base.{
  String, Bool, true, false, not, ◌&&◌, ◌||◌, List, [], ◌∷◌, Option, none, some, str_eq,
  if◌then◌else◌,
}
use ccctl.Base.Split.{split}
use ccctl.Core.Paths.{environments_bridge_path, sessions_path}

pub data Leg : Type 0 where
  register events_stream events events_delivery heartbeat status : Leg

pub record WorkerRoute : Type 0 where
  pub leg : Leg
  pub session_id : String

abbrev pub leg_of : List String → Option Leg
leg_of [] = some status
leg_of (a ∷ []) =
    if str_eq a "register"
    then some register
    else if str_eq a "events"
    then some events
    else if str_eq a "heartbeat"
    then some heartbeat
    else none
leg_of (a ∷ b ∷ []) =
    if str_eq a "events" && str_eq b "stream"
    then some events_stream
    else if str_eq a "events" && str_eq b "delivery"
    then some events_delivery
    else none
leg_of (a ∷ b ∷ c ∷ tail) = none

abbrev pub worker_segments : List String → Option WorkerRoute
worker_segments (a ∷ v ∷ c ∷ s ∷ session_id ∷ w ∷ tail) =
    if not (str_eq a "")
      || not (str_eq v "v1")
      || not (str_eq c "code")
      || not (str_eq s "sessions")
      || not (str_eq w "worker")
      || str_eq session_id ""
    then none
    else elim (leg_of tail) [
      | none ↦ none
      | some leg ↦ some (record { leg = leg; session_id = session_id })
    ]
worker_segments _ = none

unfoldable pub match_worker_route : String → Option WorkerRoute
unfolding split
match_worker_route pathname = worker_segments (split "/" pathname)

pub data UiSessionRoute : Type 0 where
  sessions : UiSessionRoute
  event_stream command stop : (session_id : String) → UiSessionRoute

abbrev pub ui_tail : List String → Option UiSessionRoute
ui_tail [] = some sessions
ui_tail (id ∷ []) = if str_eq id "" then some sessions else none
ui_tail (id ∷ t ∷ []) =
    if str_eq id ""
    then none
    else if str_eq t "events"
    then some (event_stream id)
    else if str_eq t "command"
    then some (command id)
    else if str_eq t "stop"
    then some (stop id)
    else none
ui_tail (id ∷ t ∷ u ∷ tail) = none

abbrev pub ui_segments : List String → Option UiSessionRoute
ui_segments (a ∷ b ∷ c ∷ tail) =
    if not (str_eq a "") || not (str_eq b "api") || not (str_eq c "sessions")
    then none
    else ui_tail tail
ui_segments _ = none

unfoldable pub match_ui_session_route : String → Option UiSessionRoute
unfolding split
match_ui_session_route pathname = ui_segments (split "/" pathname)

abbrev pub work_poll_segments : List String → Option String
work_poll_segments (a ∷ v ∷ e ∷ environment_id ∷ w ∷ p ∷ []) =
    if not (str_eq a "")
      || not (str_eq v "v1")
      || not (str_eq e "environments")
      || not (str_eq w "work")
      || not (str_eq p "poll")
      || str_eq environment_id ""
    then none
    else some environment_id
work_poll_segments _ = none

unfoldable pub match_work_poll_path : String → Option String
unfolding split
match_work_poll_path pathname = work_poll_segments (split "/" pathname)

pub data WorkLifecycleVerb : Type 0 where
  ack beat halt : WorkLifecycleVerb

pub record WorkLifecycleRoute : Type 0 where
  pub environment_id : String
  pub work_id : String
  pub verb : WorkLifecycleVerb

abbrev pub verb_of : String → Option WorkLifecycleVerb
verb_of s =
    if str_eq s "ack"
    then some ack
    else if str_eq s "heartbeat"
    then some beat
    else if str_eq s "stop"
    then some halt
    else none

abbrev pub work_lifecycle_segments : List String → Option WorkLifecycleRoute
work_lifecycle_segments (a ∷ v ∷ e ∷ environment_id ∷ w ∷ work_id ∷ verb ∷ []) =
    if not (str_eq a "")
      || not (str_eq v "v1")
      || not (str_eq e "environments")
      || not (str_eq w "work")
      || str_eq environment_id ""
      || str_eq work_id ""
    then none
    else elim (verb_of verb) [
      | none ↦ none
      | some verb ↦
          some (record { environment_id = environment_id; work_id = work_id; verb = verb })
    ]
work_lifecycle_segments _ = none

unfoldable pub match_work_lifecycle_path : String → Option WorkLifecycleRoute
unfolding split
match_work_lifecycle_path pathname = work_lifecycle_segments (split "/" pathname)

-- The handler that `handleRequest` calls, or `no_route`, which is answered 404.
pub data Route : Type 0 where
  session_launch sessions_list environment_register session_create no_route : Route
  ui : UiSessionRoute → Route
  work_poll : (environment_id : String) → Route
  work_lifecycle : WorkLifecycleRoute → Route
  worker : WorkerRoute → Route
  worker_state_restore : (session_id : String) → Route

abbrev pub ui_route : String → UiSessionRoute → Route
ui_route method sessions = if str_eq method "POST" then session_launch else sessions_list
ui_route method (event_stream id) = ui (event_stream id)
ui_route method (command id) = ui (command id)
ui_route method (stop id) = ui (stop id)

abbrev is_status : Leg → Bool
is_status leg = elim leg [ status ↦ true | _ ↦ false ]

abbrev pub worker_route : String → WorkerRoute → Route
worker_route method r =
    if is_status r.leg && str_eq method "GET" then worker_state_restore r.session_id else worker r

unfoldable pub route : String → String → Route
unfolding match_ui_session_route match_work_poll_path match_work_lifecycle_path match_worker_route
route method pathname = elim (match_ui_session_route pathname) [
  | some r ↦ ui_route method r
  | none ↦
      if str_eq pathname environments_bridge_path
      then environment_register
      else if str_eq pathname sessions_path
      then session_create
      else elim (match_work_poll_path pathname) [
        | some environment_id ↦ work_poll environment_id
        | none ↦ elim (match_work_lifecycle_path pathname) [
          | some r ↦ work_lifecycle r
          | none ↦ elim (match_worker_route pathname) [
            | some r ↦ worker_route method r
            | none ↦ no_route
          ]
        ]
      ]
]
