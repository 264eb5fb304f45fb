-- ===== src/Server/EventStream.antt =====
-- packages/server/src/event-stream.ts: each session's relay of events to the UI clients, with a bounded
-- replay buffer. A response is known by a number; what is written to responses goes to `Wire`, oldest
-- first. `JSON.stringify` and `Number` of a header are parameters.
pub mod Window
pub mod Isolation
use Prim.Native.String.{◌++◌ as ◌+++◌}
use ccctl.Base.{
  ℕ, suc, ◌+◌, ◌-◌, String, Bool, true, false, not, List, [], ◌∷◌, ◌++◌, Option, none, some, ltb,
  ◌==◌, str_eq, if◌then◌else◌, length, drop, keep, any, code,
}
use ccctl.Base.Dict.{Dict, get, set, delete, has}
use ccctl.Base.Texts.{trim}
use ccctl.Core.Json.{Json, Number, nonneg, negative, other}
use ccctl.Core.Enrichment.{decimal}

abbrev pub event_replay_buffer_size : ℕ
event_replay_buffer_size = 1024

pub record BufferedEvent : Type 0 where
  pub id : ℕ
  pub chunk : String

pub record EventStreamState : Type 0 where
  pub subscribers : List ℕ
  pub buffer : List BufferedEvent
  pub next_event_id : ℕ

abbrev pub SessionEventRelays : Type 0
SessionEventRelays = Dict EventStreamState

-- What the clients have received, and the responses that are ended.
pub record Wire : Type 0 where
  pub written : List (ℕ × String)
  pub ended : List ℕ

abbrev pub create_event_stream_state : EventStreamState
create_event_stream_state = record { subscribers = []; buffer = []; next_event_id = 1 }

unfoldable pub relay_for : SessionEventRelays → String → EventStreamState
relay_for relays session_id = elim (get session_id relays) [
  | none ↦ create_event_stream_state
  | some relay ↦ relay
]

-- `.split("\n").map((line) => `data: ${line}`).join("\n")`: each newline starts a line of its own.
unfoldable pub data_lines : String → String
data_lines String.[] = ""
data_lines (String.◌∷◌ c s) =
    if code c == 10 then "\ndata: " +++ data_lines s else String.◌∷◌ c (data_lines s)

unfoldable pub encode_sse_event : (Json → String) → ℕ → Json → String
unfolding data_lines
encode_sse_event stringify id payload =
    "id: " +++ (decimal id +++ ("\ndata: " +++ (data_lines (stringify payload) +++ "\n\n")))

-- `res.write`
abbrev pub write : Wire → ℕ → String → Wire
write w res chunk = record w { written = w.written ++ (res, chunk) ∷ [] }

unfoldable pub write_chunk : Wire → ℕ → String → Wire
write_chunk w res chunk = if any (λ e. e == res) w.ended then w else write w res chunk

unfoldable pub write_all : Wire → List ℕ → String → Wire
unfolding write_chunk
write_all w [] chunk = w
write_all w (res ∷ more) chunk = write_all (write_chunk w res chunk) more chunk

-- `shift` takes the oldest event out.
unfoldable pub push_buffer : List BufferedEvent → BufferedEvent → List BufferedEvent
push_buffer buffer event =
    let longer = buffer ++ event ∷ [] in
    if ltb event_replay_buffer_size (length longer) then drop 1 longer else longer

unfoldable pub append_event : (Json → String) → EventStreamState → Json → EventStreamState
unfolding push_buffer
append_event stringify state payload = record state {
  buffer = push_buffer state.buffer (record {
    id = state.next_event_id;
    chunk = encode_sse_event stringify state.next_event_id payload;
  });
  next_event_id = state.next_event_id + 1;
}

module _ (stringify : Json → String) where
  unfoldable pub broadcast_event :
      SessionEventRelays → Wire → String → Json → SessionEventRelays × Wire
  unfolding relay_for
  broadcast_event relays w session_id payload =
      let state = relay_for relays session_id in
      (
        set session_id (append_event stringify state payload) relays,
        write_all w state.subscribers (encode_sse_event stringify state.next_event_id payload),
      )

-- The request header: absent, one value, or several of which the last counts.
abbrev pub last_header : List String → Option String
last_header [] = none
last_header (v ∷ []) = some v
last_header (v ∷ u ∷ vs) = last_header (u ∷ vs)

unfoldable pub parse_last_event_id : (String → Number) → List String → Option Number
parse_last_event_id number header = elim (last_header header) [
  | none ↦ none
  | some value ↦ if str_eq (trim value) "" then none else elim (number value) [
    | nonneg n ↦ some (nonneg n)
    | negative n ↦ some (negative n)
    | other n ↦ none
  ]
]

-- `buffered.id > lastEventId`
abbrev pub is_after : Number → BufferedEvent → Bool
is_after (nonneg last) event = ltb last event.id
is_after (negative n) event = true
is_after (other n) event = false

abbrev pub missed : Option Number → List BufferedEvent → List BufferedEvent
missed none buffer = []
missed (some last) buffer = keep (is_after last) buffer

unfoldable pub write_events : Wire → ℕ → List BufferedEvent → Wire
write_events w res [] = w
write_events w res (event ∷ events) = write_events (write_chunk w res event.chunk) res events

-- The response is a `Set` member: adding it twice keeps one.
abbrev pub add_subscriber : List ℕ → ℕ → List ℕ
add_subscriber subscribers res =
    if any (λ s. s == res) subscribers then subscribers else subscribers ++ res ∷ []

pub data StreamOutcome : Type 0 where
  method_not_allowed no_session opened : StreamOutcome

abbrev pub stream_preamble : String
stream_preamble = ": ccctl event stream\n\n"

unfoldable pub handle_event_stream :
    (String → Number)
    → (method : String) → (last_event_id : List String) → (known : Bool) → SessionEventRelays
    → Wire
    → ℕ
    → String
    → StreamOutcome × SessionEventRelays × Wire
unfolding relay_for
handle_event_stream number method last_event_id known relays w res session_id =
    if not (str_eq method "GET")
    then (method_not_allowed, relays, w)
    else if not known
    then (no_session, relays, w)
    else let relay = relay_for relays session_id in
      let events = missed (parse_last_event_id number last_event_id) relay.buffer in
      (
        opened,
        set session_id (record relay { subscribers = add_subscriber relay.subscribers res }) relays,
        write_events (write w res stream_preamble) res events,
      )

-- A client's connection closes.
unfoldable pub drop_subscriber : EventStreamState → ℕ → EventStreamState
drop_subscriber relay res = record relay {
  subscribers = keep (λ s. not (s == res)) relay.subscribers;
}

unfoldable pub session_message_cursor : SessionEventRelays → String → ℕ
session_message_cursor relays session_id = elim (get session_id relays) [
  | none ↦ 0
  | some relay ↦ relay.next_event_id - 1
]

unfoldable pub end_all : Wire → List ℕ → Wire
end_all w responses = record w { ended = w.ended ++ responses }

unfoldable pub close_event_streams : SessionEventRelays → Wire → SessionEventRelays × Wire
unfolding end_all
close_event_streams [] w = ([], w)
close_event_streams ((k, relay) ∷ relays) w =
    let (rest, w') = close_event_streams relays (end_all w relay.subscribers) in
    ((k, record relay { subscribers = [] }) ∷ rest, w')

unfoldable pub close_session_relay : SessionEventRelays → Wire → String → SessionEventRelays × Wire
unfolding end_all
close_session_relay relays w session_id = elim (get session_id relays) [
  | none ↦ (relays, w)
  | some relay ↦ (delete session_id relays, end_all w relay.subscribers)
]
