-- ===== src/Server/Unread.antt =====
-- packages/server/src/unread-queue.ts and push-suppression.ts: the events that a session has not had
-- acknowledged, and the acknowledgements that came over a live connection.
pub mod Keys
pub mod Order
use ccctl.Base.{
  ℕ, String, Bool, true, false, not, ◌&&◌, List, [], ◌∷◌, ◌++◌, leb, ◌==◌, str_eq, if◌then◌else◌,
  any, keep,
}
use ccctl.Core.Session.{SessionActivity}

pub record UnreadEntry : Type 0 where
  pub session_id : String
  pub event_id : ℕ
  pub at : ℕ
  pub activity : SessionActivity

-- The entry is that of the event.
abbrev pub is_event : String → ℕ → UnreadEntry → Bool
is_event session_id event_id e = str_eq e.session_id session_id && e.event_id == event_id

unfoldable pub enqueue_unread : List UnreadEntry → UnreadEntry → List UnreadEntry
enqueue_unread unread entry =
    if any (is_event entry.session_id entry.event_id) unread then unread else unread ++ entry ∷ []

-- `sort` is stable: an entry goes behind those that are not above it.
unfoldable pub insert_by_event : UnreadEntry → List UnreadEntry → List UnreadEntry
insert_by_event e [] = e ∷ []
insert_by_event e (x ∷ xs) =
    if leb e.event_id x.event_id then e ∷ x ∷ xs else x ∷ insert_by_event e xs

unfoldable pub sort_by_event : List UnreadEntry → List UnreadEntry
unfolding insert_by_event
sort_by_event [] = []
sort_by_event (e ∷ es) = insert_by_event e (sort_by_event es)

unfoldable pub reconcile_unread : List UnreadEntry → String → List UnreadEntry
unfolding sort_by_event
reconcile_unread unread session_id =
    sort_by_event (keep (λ e. str_eq e.session_id session_id) unread)

unfoldable pub ack_unread : List UnreadEntry → String → ℕ → List UnreadEntry
ack_unread unread session_id event_id = keep (λ e. not (is_event session_id event_id e)) unread

pub record EventKey : Type 0 where
  pub session_id : String
  pub event_id : ℕ

abbrev pub is_key : EventKey → EventKey → Bool
is_key k ack = str_eq ack.session_id k.session_id && ack.event_id == k.event_id

unfoldable pub record_live_ack : List EventKey → String → ℕ → List EventKey
record_live_ack acknowledged session_id event_id =
    let key = λ (e : ℕ). let k : EventKey = record { session_id = session_id; event_id = e } in k in
    if any (is_key (key event_id)) acknowledged
    then acknowledged
    else acknowledged ++ key event_id ∷ []

unfoldable pub is_push_suppressed : List EventKey → EventKey → Bool
is_push_suppressed acknowledged wake = any (is_key wake) acknowledged
