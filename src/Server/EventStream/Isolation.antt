-- ===== src/Server/EventStream/Isolation.antt =====
-- Who receives what in packages/server/src/event-stream.ts.
use native.Mathlib.Omega.{arith}
use ccctl.Base.{
  ℕ, ◌≡◌, ◌≢◌, refl, sym, ap, ◌∙◌, inl, inr, String, not, List, [], ◌∷◌, ◌++◌, map, keep, any,
  Bool-cases, Option-cases, str_eq_ne, ◌==◌,
}
use mathlib.Core.List.{append-nil, append_assoc}
use ccctl.Base.Dict.{get, get-set, get-delete, get-set_self, get-delete_self}
use ccctl.Core.Json.{Json}
use ccctl.Server.EventStream.{
  SessionEventRelays, Wire, create_event_stream_state, relay_for, broadcast_event, write_chunk,
  write_all, append_event, encode_sse_event, close_session_relay, end_all, session_message_cursor,
}

-- The responses that can still be written to.
abbrev pub open_ones : Wire → List ℕ → List ℕ
open_ones w = keep (λ r. not (any (λ e. e == r) w.ended))

write_all_lem :
    (w : Wire) (subscribers : List ℕ) (chunk : String)
    → write_all w subscribers chunk
      ≡ record w { written = w.written ++ map (λ r. (r, chunk)) (open_ones w subscribers) }
unfolding write_all write_chunk
write_all_lem w [] chunk = ap (λ l. record w { written = l }) (sym (append-nil w.written))
write_all_lem w (r ∷ rs) chunk = elim (Bool-cases (any (λ e. e == r) w.ended)) [
  | inl e ↦ rw (e, write_chunk) (write_all_lem w rs chunk)
  | inr e ↦
      rw (e, write_chunk)
        (write_all_lem (record w { written = w.written ++ (r, chunk) ∷ [] }) rs chunk
          ∙ ap (λ l. record w { written = l }) (append_assoc w.written ((r, chunk) ∷ []) _))
]

-- An event of a session is written, under the session's next number, to each subscriber of that session
-- whose response is open, in the order in which they subscribed, and to nobody else; the session's cursor
-- moves on by one, and the relays of the other sessions stay as they are.
pub broadcast_event_lem :
    (stringify : Json → String) (relays : SessionEventRelays) (w : Wire) (id other : String)
    (payload : Json)
    → id ≢ other
    → let (relays', w') = broadcast_event stringify relays w id payload in
      let relay = relay_for relays id in
      (w'.written
        ≡ w.written
          ++ map
              (λ r. (r, encode_sse_event stringify relay.next_event_id payload))
              (open_ones w relay.subscribers))
      × (w'.ended ≡ w.ended)
      × (session_message_cursor relays' id ≡ relay.next_event_id)
      × (get other relays' ≡ get other relays)
unfolding broadcast_event session_message_cursor append_event
broadcast_event_lem stringify relays w id other payload h = (
  ap (λ (v : Wire). v.written) (write_all_lem w _ _),
  ap (λ (v : Wire). v.ended) (write_all_lem w _ _),
  rw (get-set_self, session_message_cursor) (omega arith),
  rw get-set (rw (str_eq_ne id other h) refl),
)

-- The subscribers stay those of before.
pub broadcast-subscribers :
    (stringify : Json → String) (relays : SessionEventRelays) (w : Wire) (id : String)
    (payload : Json)
    → (relay_for (broadcast_event stringify relays w id payload).0 id).subscribers
      ≡ (relay_for relays id).subscribers
unfolding broadcast_event append_event
broadcast-subscribers stringify relays w id payload = rw (get-set_self, relay_for) refl

-- Closing a session's relay ends every subscriber's response and forgets the relay, so that a session of
-- that id starts again from its first event; the relays of the other sessions stay as they are.
pub close_session_relay_lem :
    (relays : SessionEventRelays) (w : Wire) (id other : String)
    → id ≢ other
    → let (relays', w') = close_session_relay relays w id in
      (w'.ended ≡ w.ended ++ (relay_for relays id).subscribers)
      × (w'.written ≡ w.written)
      × (relay_for relays' id ≡ create_event_stream_state)
      × (get other relays' ≡ get other relays)
unfolding close_session_relay end_all relay_for
close_session_relay_lem relays w id other h = elim (Option-cases (get id relays)) [
  | inl e ↦
      rw (e, close_session_relay, relay_for)
        (sym (append-nil w.ended), refl, rw (e, relay_for) refl, refl)
  | inr (relay, e) ↦
      rw (e, close_session_relay, relay_for)
        (
          refl,
          refl,
          rw (get-delete_self, relay_for) refl,
          rw get-delete (rw (str_eq_ne id other h) refl),
        )
]
