-- ===== src/Server/Tests/Closed.antt =====
-- The theorem on packages/server/src/session-close.ts at a concrete session.
use ccctl.Base.{false, ne_str_eq, ◌≡◌, refl, String, [], ◌∷◌, ◌++◌, map, none, some}
use ccctl.Base.Dict.{get}
use ccctl.Core.Json.{Json, str, obj, field, end}
use ccctl.Core.Session.{Session, busy, closed, is_running}
use ccctl.Server.EventStream.{create_event_stream_state, relay_for, encode_sse_event}
use ccctl.Server.EventStream.Isolation.{open_ones}
use ccctl.Server.Close.{SessionCloseState, close_session, close_session_lem}

abbrev pub printed : Json → String
printed v = "{}"

abbrev pub working : Session
working = record {
  id = "s1";
  status = busy;
  activity = is_running;
  auto_resolves_permissions = false;
  created_at = 1;
  last_activity_at = 2;
  last_heartbeat_at = 3;
}

abbrev pub before : SessionCloseState
before = record {
  sessions = ("s1", working) ∷ [];
  event_relays = ("s1", record { subscribers = 1 ∷ 2 ∷ []; buffer = []; next_event_id = 4 }) ∷ [];
  wire = record { written = []; ended = 2 ∷ [] };
  requires_action_enrichments = [];
  hook_installs = ("s1", 7) ∷ [];
  removed = [];
}

listed : get "s1" before.sessions ≡ some working
unfolding get
listed = refl

close_session_lem_example :
    let after = (close_session printed before "s1").1 in
    let relay = relay_for before.event_relays "s1" in
    let event = obj (
      field "type"
        (str "ccctl_session_closed")
        (field "session_id" (str "s1") (field "status" (str "closed") end))) in
    ((close_session printed before "s1").0 ≡ some (record working { status = closed }))
    × (after.wire.written
        ≡ before.wire.written
          ++ map
              (λ r. (r, encode_sse_event printed relay.next_event_id event))
              (open_ones before.wire relay.subscribers))
    × (after.wire.ended ≡ before.wire.ended ++ relay.subscribers)
    × (get "s1" after.sessions ≡ none)
    × (get "s1" after.requires_action_enrichments ≡ none)
    × (get "s1" after.hook_installs ≡ none)
    × (relay_for after.event_relays "s1" ≡ create_event_stream_state)
    × (get "s2" after.event_relays ≡ get "s2" before.event_relays)
close_session_lem_example =
    close_session_lem printed before "s1" "s2" working listed (ne_str_eq "s1" "s2" refl)
