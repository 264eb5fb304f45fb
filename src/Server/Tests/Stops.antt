-- ===== src/Server/Tests/Stops.antt =====
-- The theorems on the stop of a session in packages/server, at a session that this server launched.
use mathlib.Core.Logic.{◌⊎◌}
use ccctl.Base.{
  ◌≡◌, ◌↔◌, ◌≤◌, ℕ, refl, Bool, true, false, List, [], ◌∷◌, ◌++◌, map, Option, some, length,
}
use ccctl.Base.Dict.{get, delete}
use ccctl.Core.Json.{Json, null}
use ccctl.Core.Session.{mark_session_closed}
use ccctl.Server.Body.{Incoming, chunk, finish, ok, read_json_body}
use ccctl.Server.Body.Accepted.{joined, read_json_body_iff}
use ccctl.Server.Close.{close_session}
use ccctl.Server.Release.{LaunchedSession, stop_launched_session}
use ccctl.Server.Worker.{reap_worker_channel}
use ccctl.Server.Stop.{
  SessionStopState, StopOutcomeWire, ended, was_stopped, stop_check, forget_session, finish_stop,
  consume, reap, stop_session,
}
use ccctl.Server.Stop.Handler.{handle_session_stop}
use ccctl.Server.Stop.Outcome.{Finished, stop_session-ends, stop_session-refuses}
use ccctl.Server.Stop.Forced.{forceable-closes}
use ccctl.Server.Tests.Surfaces.{surface}
use ccctl.Server.Tests.Closed.{printed, working}
use ccctl.Server.Tests.Channels.{start}
use ccctl.Web.Stop.{stop_request, stop_failure}

abbrev owned : SessionStopState
owned = record {
  channels = start;
  pending_launches = [];
  launched_surfaces = ("s1", surface) ∷ [];
  armed = [];
  next_timer = 0;
}

stopping :
    (stop_session printed owned owned "s1" false).0
    ≡ ended was_stopped (mark_session_closed working)
unfolding stop_session stop_check finish_stop forget_session consume reap stop_launched_session
    close_session reap_worker_channel get delete
stopping = refl

stop_session-ends_example :
    (launched : LaunchedSession) × (get "s1" owned.launched_surfaces ≡ some launched)
    × Finished owned
        (stop_session printed owned owned "s1" false).1
        "s1"
        launched
        false
        (stop_session printed owned owned "s1" false).2
        was_stopped
        (mark_session_closed working)
stop_session-ends_example =
    stop_session-ends printed owned owned "s1" false was_stopped (mark_session_closed working)
      stopping

known : get "s1" owned.channels.hub.sessions ≡ some working
unfolding get
known = refl

stop_session-refuses_example :
    let (end, after, called) = stop_session printed owned owned "s1" true in
    ((how : StopOutcomeWire) × (end ≡ ended how (mark_session_closed working)))
    ⊎ (after ≡ owned)
    ⊎ ((after ≡ owned) × (called ≡ false))
stop_session-refuses_example = stop_session-refuses printed owned owned "s1" true working known

forceable-closes_example :
    let ask = λ (force : Bool).
      handle_session_stop printed "POST" owned owned "s1" (ok (stop_request force)) in
    ((stop_failure (ask false).0.status (ask false).0.body).forceable ≡ true)
    ↔ (((ask false).2 ≡ false) × ((ask true).2 ≡ true))
forceable-closes_example = forceable-closes printed owned owned "s1"

abbrev reads_null : List ℕ → Option Json
reads_null bytes = some null

read_json_body_iff_example :
    (read_json_body reads_null 4 (chunk (110 ∷ 117 ∷ []) ∷ chunk (108 ∷ 108 ∷ []) ∷ finish ∷ [])
      ≡ some (ok null))
    ↔ ((chunks : List (List ℕ)) × (rest : List Incoming) × (chunk (110 ∷ 117 ∷ [])
            ∷ chunk (108 ∷ 108 ∷ [])
            ∷ finish
            ∷ []
          ≡ map chunk chunks ++ finish ∷ rest)
        × (length (joined chunks) ≤ 4)
        × (reads_null (joined chunks) ≡ some null))
read_json_body_iff_example =
    read_json_body_iff reads_null 4 (chunk (110 ∷ 117 ∷ []) ∷ chunk (108 ∷ 108 ∷ []) ∷ finish ∷ [])
      null
