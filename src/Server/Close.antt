-- ===== src/Server/Close.antt =====
-- packages/server/src/session-close.ts: how a session ends. The hooks of a session are a number here, and
-- the removal of their files is the entry of that number in `removed`.
use ccctl.Base.{
  ℕ, ◌≡◌, ◌≢◌, refl, ap, ap₂, ◌∙◌, inl, inr, String, List, [], ◌∷◌, ◌++◌, map, Option, none, some,
  Option-cases,
}
use ccctl.Base.Dict.{Dict, get, delete, get-delete_self}
use ccctl.Core.Json.{Json, str, obj, field, end}
use ccctl.Core.Session.{
  Session, SessionStatus, registering, connecting, ready, busy, closed, errored,
  mark_session_closed,
}
use ccctl.Core.Enrichment.{RequiresActionEnrichment}
use ccctl.Server.EventStream.{
  SessionEventRelays, Wire, create_event_stream_state, relay_for, encode_sse_event, broadcast_event,
  close_session_relay,
}
use ccctl.Server.EventStream.Isolation.{
  open_ones, broadcast_event_lem, broadcast-subscribers, close_session_relay_lem,
}

abbrev pub status_name : SessionStatus → String
status_name registering = "registering"
status_name connecting = "connecting"
status_name ready = "ready"
status_name busy = "busy"
status_name closed = "closed"
status_name errored = "errored"

unfoldable pub session_closed_event : String → SessionStatus → Json
session_closed_event session_id status = obj (
    field "type" (str "ccctl_session_closed")
      (field "session_id" (str session_id) (field "status" (str (status_name status)) end)))

pub record SessionCloseState : Type 0 where
  pub sessions : Dict Session
  pub event_relays : SessionEventRelays
  pub wire : Wire
  pub requires_action_enrichments : Dict RequiresActionEnrichment
  pub hook_installs : Dict ℕ
  pub removed : List ℕ

-- `cleanupHookInstall` and the deletion of its entry, if the session has one.
unfoldable pub remove_hooks : SessionCloseState → String → SessionCloseState
remove_hooks s session_id = elim (get session_id s.hook_installs) [
  | none ↦ s
  | some install ↦ record s {
    hook_installs = delete session_id s.hook_installs;
    removed = s.removed ++ install ∷ [];
  }
]

module _ (stringify : Json → String) where
  -- The session is told to its clients, and every map forgets it.
  unfoldable pub end_session : SessionCloseState → String → Session → SessionCloseState
  unfolding session_closed_event remove_hooks broadcast_event close_session_relay
  end_session s session_id done =
      let told =
        broadcast_event stringify s.event_relays s.wire session_id
          (session_closed_event session_id done.status) in
      let ended = close_session_relay told.0 told.1 session_id in
      remove_hooks
        (record s {
          sessions = delete session_id s.sessions;
          event_relays = ended.0;
          wire = ended.1;
          requires_action_enrichments = delete session_id s.requires_action_enrichments;
        })
        session_id

  unfoldable pub close_session : SessionCloseState → String → Option Session × SessionCloseState
  unfolding end_session mark_session_closed
  close_session s session_id = elim (get session_id s.sessions) [
    | none ↦ (none, s)
    | some session ↦
        let done = mark_session_closed session in (some done, end_session s session_id done)
  ]

remove_hooks-same :
    (s : SessionCloseState) (id : String)
    → ((remove_hooks s id).sessions ≡ s.sessions)
      × ((remove_hooks s id).event_relays ≡ s.event_relays)
      × ((remove_hooks s id).wire ≡ s.wire)
      × ((remove_hooks s id).requires_action_enrichments ≡ s.requires_action_enrichments)
      × (get id (remove_hooks s id).hook_installs ≡ none)
unfolding remove_hooks
remove_hooks-same s id = elim (Option-cases (get id s.hook_installs)) [
  | inl e ↦ rw (e, remove_hooks) (refl, refl, refl, refl, e)
  | inr (h, e) ↦ rw (e, remove_hooks) (refl, refl, refl, refl, get-delete_self id s.hook_installs)
]

module _ (stringify : Json → String) (s : SessionCloseState) (id : String) (done : Session) where
  abbrev event : Json
  event = session_closed_event id done.status

  end_session-ended :
      (other : String)
      → id ≢ other
      → (end_session stringify s id done).wire.ended
        ≡ s.wire.ended ++ (relay_for s.event_relays id).subscribers
  unfolding end_session
  end_session-ended other apart =
      let told = broadcast_event stringify s.event_relays s.wire id event in
      let ended = close_session_relay told.0 told.1 id in
      let same =
        remove_hooks-same
          (record s {
            sessions = delete id s.sessions;
            event_relays = ended.0;
            wire = ended.1;
            requires_action_enrichments = delete id s.requires_action_enrichments;
          })
          id in
      ap (λ (w : Wire). w.ended) same.2
      ∙ (close_session_relay_lem told.0 told.1 id other apart).0
      ∙ ap₂ (λ (e l : List ℕ). e ++ l)
          ((broadcast_event_lem stringify s.event_relays s.wire id other event apart).1)
          (broadcast-subscribers stringify s.event_relays s.wire id event)

  end_session-told :
      (other : String)
      → id ≢ other
      → let after = end_session stringify s id done in
        let relay = relay_for s.event_relays id in
        (after.wire.written
          ≡ s.wire.written
            ++ map
                (λ r. (r, encode_sse_event stringify relay.next_event_id event))
                (open_ones s.wire relay.subscribers))
        × (relay_for after.event_relays id ≡ create_event_stream_state)
        × (get other after.event_relays ≡ get other s.event_relays)
  unfolding end_session
  end_session-told other apart =
      let told = broadcast_event stringify s.event_relays s.wire id event in
      let ended = close_session_relay told.0 told.1 id in
      let spoken = broadcast_event_lem stringify s.event_relays s.wire id other event apart in
      let shut = close_session_relay_lem told.0 told.1 id other apart in
      let same =
        remove_hooks-same
          (record s {
            sessions = delete id s.sessions;
            event_relays = ended.0;
            wire = ended.1;
            requires_action_enrichments = delete id s.requires_action_enrichments;
          })
          id in
      (
        ap (λ (w : Wire). w.written) same.2 ∙ shut.1 ∙ spoken.0,
        ap (λ r. relay_for r id) same.1 ∙ shut.2,
        ap (get other) same.1 ∙ shut.3 ∙ spoken.3,
      )

  end_session-forgotten :
      let after = end_session stringify s id done in
      (get id after.sessions ≡ none)
      × (get id after.requires_action_enrichments ≡ none)
      × (get id after.hook_installs ≡ none)
  unfolding end_session
  end_session-forgotten =
      let told = broadcast_event stringify s.event_relays s.wire id event in
      let ended = close_session_relay told.0 told.1 id in
      let same =
        remove_hooks-same
          (record s {
            sessions = delete id s.sessions;
            event_relays = ended.0;
            wire = ended.1;
            requires_action_enrichments = delete id s.requires_action_enrichments;
          })
          id in
      (
        ap (get id) same.0 ∙ get-delete_self id s.sessions,
        ap (get id) same.3 ∙ get-delete_self id s.requires_action_enrichments,
        same.4,
      )

pub close_session-known :
    (stringify : Json → String) (s : SessionCloseState) (id : String) (session : Session)
    → get id s.sessions ≡ some session
    → close_session stringify s id ≡ (
      some (mark_session_closed session),
      end_session stringify s id (mark_session_closed session),
    )
unfolding close_session
close_session-known stringify s id session e = rw (e, close_session) refl

-- How a session ends: as an errored one if it is that already, and otherwise as a closed one.
abbrev pub final_status : SessionStatus → SessionStatus
final_status errored = errored
final_status _ = closed

pub mark_session_closed_lem :
    (s : Session) → mark_session_closed s ≡ record s { status = final_status s.status }
unfolding mark_session_closed
mark_session_closed_lem s = by_status s.status refl
  where
    by_status :
        (status : SessionStatus)
        → s.status ≡ status
        → mark_session_closed s ≡ record s { status = final_status s.status }
    by_status registering e = rw e refl
    by_status connecting e = rw e refl
    by_status ready e = rw e refl
    by_status busy e = rw e refl
    by_status closed e = rw e refl
    by_status errored e = rw e refl

-- Closing a known session tells each of its clients whose response is open, in an event with the session's
-- next number that names the final status, and then ends the responses of all its clients. The session that is
-- reported is the known one with that status, which is errored if it was that and otherwise closed. The session,
-- its enrichment, its hooks and its relay are forgotten, and the relay of another session stays as it is.
pub close_session_lem :
    (stringify : Json → String) (s : SessionCloseState) (id other : String) (session : Session)
    → get id s.sessions ≡ some session
    → id ≢ other
    → let after = (close_session stringify s id).1 in
      let relay = relay_for s.event_relays id in
      let final = final_status session.status in
      let event = obj (
        field "type"
          (str "ccctl_session_closed")
          (field "session_id" (str id) (field "status" (str (status_name final)) end))) in
      ((close_session stringify s id).0 ≡ some (record session { status = final }))
      × (after.wire.written
          ≡ s.wire.written
            ++ map
                (λ r. (r, encode_sse_event stringify relay.next_event_id event))
                (open_ones s.wire relay.subscribers))
      × (after.wire.ended ≡ s.wire.ended ++ relay.subscribers)
      × (get id after.sessions ≡ none)
      × (get id after.requires_action_enrichments ≡ none)
      × (get id after.hook_installs ≡ none)
      × (relay_for after.event_relays id ≡ create_event_stream_state)
      × (get other after.event_relays ≡ get other s.event_relays)
unfolding session_closed_event
close_session_lem stringify s id other session e apart =
    let done : Session = record session { status = final_status session.status } in
    let told = end_session-told stringify s id done other apart in
    let gone = end_session-forgotten stringify s id done in
    let ended = end_session-ended stringify s id done other apart in
    let known = close_session-known stringify s id session e in
    rw (known, mark_session_closed_lem session)
      (refl, told.0, ended, gone.0, gone.1, gone.2, told.1, told.2)
