-- ===== src/Server/Tests/Streams.antt =====
-- The theorems on the event streams, the unread queue and the restart of packages/server, at concrete inputs.
use Prim.Native.Nat.{max}
use ccctl.Base.{ℕ, ◌-◌, ◌≡◌, refl, String, Bool, false, List, [], ◌∷◌, some, str_eq, length, drop}
use ccctl.Base.Dict.{get, set}
use ccctl.Core.Json.{Json, nonneg, str}
use ccctl.Core.Session.{Session, ready, is_idle, is_running}
use ccctl.Server.EventStream.{SessionEventRelays, Wire, create_event_stream_state, missed}
use ccctl.Server.EventStream.Window.{append_all, number, missed-append_all}
use ccctl.Server.Reconcile.{RecordedLaunch, rehydrate_retained_sessions}
use ccctl.Server.Unread.{UnreadEntry, EventKey}
use ccctl.Server.Unread.Keys.{Call, enqueues, acks, run, follow, Once, waits, run-follow}
use ccctl.Server.Renudge.{RenudgeCandidate}

-- Event streams, over a printer that prints everything alike.

abbrev printed : Json → String
printed v = "{}"

abbrev payloads : List Json
payloads = str "a" ∷ str "b" ∷ str "c" ∷ []

missed-append_all_example :
    missed (some (nonneg 1)) (append_all printed create_event_stream_state payloads).buffer
    ≡ drop (max (length payloads - 1024) 1) (number printed 1 payloads)
missed-append_all_example = missed-append_all printed payloads 1

abbrev relays : SessionEventRelays
relays = ("s1", record { subscribers = 1 ∷ 2 ∷ []; buffer = []; next_event_id = 1 }) ∷ []

abbrev wire : Wire
wire = record { written = []; ended = 2 ∷ [] }

-- Recorded launches.

abbrev plain : Session
plain = record {
  id = "s1";
  status = ready;
  activity = is_idle;
  auto_resolves_permissions = false;
  created_at = 1;
  last_activity_at = 1;
  last_heartbeat_at = 1;
}

abbrev recorded : List RecordedLaunch
recorded =
    record { session = plain; marker = "m1" }
    ∷ record { session = record plain { id = "s2" }; marker = "m2" }
    ∷ []

abbrev probe : String → Bool
probe m = str_eq m "m1"

rehydrated : get "s1" (rehydrate_retained_sessions [] recorded) ≡ some plain
unfolding get set rehydrate_retained_sessions
rehydrated = refl

-- Unread events.

abbrev event : ℕ → UnreadEntry
event n = record { session_id = "s1"; event_id = n; at = 1000; activity = is_running }

abbrev calls : List Call
calls = enqueues (event 2) ∷ enqueues (event 1) ∷ acks "s1" 2 ∷ enqueues (event 1) ∷ []

run-follow_example : Once (run [] calls) × (waits (run [] calls) "s1" 1 ≡ follow "s1" 1 false calls)
run-follow_example = run-follow calls "s1" 1

abbrev key : ℕ → EventKey
key n = record { session_id = "s1"; event_id = n }

-- Nudges.

abbrev candidates : List RenudgeCandidate
candidates =
    record { entry = event 1; renudges_fired = 0 }
    ∷ record { entry = event 2; renudges_fired = 3 }
    ∷ []
