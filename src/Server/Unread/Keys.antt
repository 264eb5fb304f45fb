-- ===== src/Server/Unread/Keys.antt =====
-- Which events are in the queue of packages/server/src/unread-queue.ts, and how often; and which pushes
-- push-suppression.ts holds back.
use native.Mathlib.Omega.{arith}
use ccctl.Base.{
  ℕ, ◌≡◌, refl, inl, inr, String, Bool, true, false, not, ◌&&◌, ◌||◌, List, [], ◌∷◌, ◌++◌, ◌==◌,
  str_eq, eq_iff, any, any-append, Bool-cases, ap, ◌∙◌,
}
use ccctl.Server.Unread.{
  UnreadEntry, is_event, enqueue_unread, ack_unread, EventKey, is_key, record_live_ack,
  is_push_suppressed,
}

-- An entry for the event waits.
abbrev pub waits : List UnreadEntry → String → ℕ → Bool
waits unread session_id event_id = any (is_event session_id event_id) unread

-- The entry's key is the one that is asked for.
abbrev pub is_same : UnreadEntry → String → ℕ → Bool
is_same e s n = str_eq e.session_id s && e.event_id == n

-- The test of an event's key finds that event only.
is_same-eq :
    (e : UnreadEntry) (s : String) (n : ℕ)
    → is_same e s n ≡ true
    → (e.session_id ≡ s) × (e.event_id ≡ n)
is_same-eq e s n h = ground (arith, eq_iff e.session_id s)

waits-enqueue_unread :
    (unread : List UnreadEntry) (e : UnreadEntry) (s : String) (n : ℕ)
    → waits (enqueue_unread unread e) s n ≡ (waits unread s n || is_same e s n)
unfolding enqueue_unread
waits-enqueue_unread unread e s n = elim (Bool-cases (waits unread e.session_id e.event_id)) [
  | inr w ↦ rw w (any-append (is_event s n) unread (e ∷ []) ∙ ground arith)
  | inl w ↦ rw w (elim (Bool-cases (is_same e s n)) [
    | inr k ↦ ground arith
    | inl k ↦
        let (p, q) = is_same-eq e s n k in
        let there : waits unread s n ≡ true = rw (← p, ← q) w in ground arith
  ])
]

waits-ack_unread :
    (unread : List UnreadEntry) (s t : String) (m n : ℕ)
    → waits (ack_unread unread s m) t n ≡ (waits unread t n && not (str_eq s t && m == n))
unfolding ack_unread
waits-ack_unread [] s t m n = refl
waits-ack_unread (e ∷ es) s t m n =
    ground
      (arith, waits-ack_unread es s t m n, eq_iff e.session_id s, eq_iff e.session_id t, eq_iff s t)

-- Each event stands in the queue once.
abbrev pub Once : List UnreadEntry → Type 0
Once [] = Unit
Once (e ∷ es) = (waits es e.session_id e.event_id ≡ false) × Once es

Once-append :
    (es : List UnreadEntry) (e : UnreadEntry)
    → Once es
    → waits es e.session_id e.event_id ≡ false
    → Once (es ++ e ∷ [])
Once-append [] e o w = (refl, tt)
Once-append (x ∷ xs) e o w = (
  any-append (is_event x.session_id x.event_id) xs (e ∷ [])
      ∙ ground (arith, eq_iff e.session_id x.session_id, eq_iff x.session_id e.session_id),
  Once-append xs e o.1 (ground arith),
)

enqueue_unread-Once :
    (es : List UnreadEntry) (e : UnreadEntry) → Once es → Once (enqueue_unread es e)
unfolding enqueue_unread
enqueue_unread-Once es e o = elim (Bool-cases (waits es e.session_id e.event_id)) [
  | inl w ↦ rw w o
  | inr w ↦ rw w (Once-append es e o w)
]

ack_unread-Once : (es : List UnreadEntry) (s : String) (n : ℕ) → Once es → Once (ack_unread es s n)
unfolding ack_unread
ack_unread-Once [] s n o = tt
ack_unread-Once (e ∷ es) s n o = elim (Bool-cases (is_event s n e)) [
  | inl k ↦ rw k (ack_unread-Once es s n o.1)
  | inr k ↦ rw k (
    waits-ack_unread es s e.session_id n e.event_id
        ∙ ap (λ b. b && not (str_eq s e.session_id && n == e.event_id)) o.0,
    ack_unread-Once es s n o.1,
  )
]

-- The calls of the queue's module that change it.
pub data Call : Type 0 where
  enqueues : UnreadEntry → Call
  acks : String → ℕ → Call

unfoldable pub run : List UnreadEntry → List Call → List UnreadEntry
run unread [] = unread
run unread (enqueues e ∷ cs) = run (enqueue_unread unread e) cs
run unread (acks s n ∷ cs) = run (ack_unread unread s n) cs

-- Whether one event waits after the calls, followed by itself.
abbrev pub follow : String → ℕ → Bool → List Call → Bool
follow s n waiting [] = waiting
follow s n waiting (enqueues e ∷ cs) = follow s n (waiting || is_same e s n) cs
follow s n waiting (acks t m ∷ cs) = follow s n (waiting && not (str_eq t s && m == n)) cs

run_from :
    (unread : List UnreadEntry) (cs : List Call) (s : String) (n : ℕ)
    → Once unread
    → Once (run unread cs) × (waits (run unread cs) s n ≡ follow s n (waits unread s n) cs)
unfolding run
run_from unread [] s n o = (o, refl)
run_from unread (enqueues e ∷ cs) s n o =
    let (once, eq) = run_from (enqueue_unread unread e) cs s n (enqueue_unread-Once unread e o) in
    (once, eq ∙ ap (λ b. follow s n b cs) (waits-enqueue_unread unread e s n))
run_from unread (acks t m ∷ cs) s n o =
    let (once, eq) = run_from (ack_unread unread t m) cs s n (ack_unread-Once unread t m o) in
    (once, eq ∙ ap (λ b. follow s n b cs) (waits-ack_unread unread t s m n))

-- After any calls on an empty queue each event stands in it at most once, and an event waits exactly if it
-- was enqueued and has not been acknowledged since.
pub run-follow :
    (cs : List Call) (s : String) (n : ℕ)
    → Once (run [] cs) × (waits (run [] cs) s n ≡ follow s n false cs)
run-follow cs s n = run_from [] cs s n tt

-- The acknowledgements recorded one after the other, the last of the list first.
abbrev pub record_all : List EventKey → List EventKey
record_all [] = []
record_all (k ∷ ks) = record_live_ack (record_all ks) k.session_id k.event_id

-- A push is held back exactly if the acknowledgement of its event is among those that were recorded.
pub is_push_suppressed-record_all :
    (acks : List EventKey) (wake : EventKey)
    → is_push_suppressed (record_all acks) wake ≡ any (is_key wake) acks
unfolding is_push_suppressed record_live_ack
is_push_suppressed-record_all [] wake = refl
is_push_suppressed-record_all (k ∷ ks) wake =
    let known = record_all ks in
    let ih : any (is_key wake) known ≡ any (is_key wake) ks =
      is_push_suppressed-record_all ks wake in
    elim (Bool-cases (any (is_key k) known)) [
      | inr a ↦ rw a (any-append (is_key wake) known (k ∷ []) ∙ ground arith)
      | inl a ↦ rw a (elim (Bool-cases (is_key wake k)) [
        | inr b ↦ ground arith
        | inl b ↦
            let same : (k.session_id ≡ wake.session_id) × (k.event_id ≡ wake.event_id) =
              ground (arith, eq_iff k.session_id wake.session_id) in
            let there : any (is_key wake) known ≡ true = rw (← same.0, ← same.1) a in ground arith
      ])
    ]
