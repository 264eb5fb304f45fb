-- ===== src/Server/Worker/Reports.antt =====
-- The reports of a status in packages/server/src/worker-channel.ts, their numbers, and what a record notes of them.
use native.Mathlib.Omega.{arith}
use ccctl.Base.{
  ℕ, ◌≤◌, ◌≡◌, refl, inl, inr, String, Option, none, some, ltb, Option-cases, Bool-cases,
}
use ccctl.Base.Dict.{Dict, get}
use ccctl.Core.Json.{Json, as_object}
use ccctl.Core.Session.{
  Session, SessionActivity, WorkerStatus, worker_status_event, StatusEvent,
  worker_status_sequence_from_frame,
}
use ccctl.Server.Worker.{
  WorkerChannelState, arm_idle_timer, clear_idle_timer, disarm, reconcile_idle_of,
  reconcile_idle_timer,
}
use ccctl.Server.Worker.Handlers.{
  highest, reconcile_enrichment_buffer, buffer_input_request_enrichment,
}
use ccctl.Server.Worker.Timers.{SameChannels}

-- A status comes by its own request or as an entry of `events`.
pub data Report : Type 0 where
  put : WorkerStatus → Option ℕ → Report
  listed : (entry : Json) → Report

abbrev pub number_in : Dict Json → Option ℕ
number_in o = elim (get "payload" o) [
  | none ↦ none
  | some payload ↦ elim (as_object payload) [
    | none ↦ none
    | some frame ↦ worker_status_sequence_from_frame frame
  ]
]

abbrev pub number_of : Report → Option ℕ
number_of (put status sequence) = sequence
number_of (listed entry) = elim (as_object entry) [ none ↦ none | some o ↦ number_in o ]

-- The mark of a record is `n` or more, and its session is there.
pub record Marked (t : WorkerChannelState) (ref : ℕ) (id : String) (n : ℕ) : Type 0 where
  pub mark : ℕ
  pub marked : (t.heap ref).highest_status_seq ≡ some mark
  pub below : n ≤ mark
  pub session : Session
  pub present : get id t.hub.sessions ≡ some session

pub highest_mark : (n : ℕ) (old : Option ℕ) → (m : ℕ) × (highest (some n) old ≡ some m) × (n ≤ m)
highest_mark n none = (n, refl, ground arith)
highest_mark n (some m) = elim (Bool-cases (ltb m n)) [
  | inl k ↦ (n, ground arith, ground arith)
  | inr k ↦ (m, ground arith, ground arith)
]

pub record Kept (s t : WorkerChannelState) (ref : ℕ) : Type 0 where
  pub highest_status_seq : (t.heap ref).highest_status_seq ≡ (s.heap ref).highest_status_seq
  pub sessions : t.hub.sessions ≡ s.hub.sessions

abbrev pub compose :
    (s t u : WorkerChannelState) (ref : ℕ) → Kept s t ref → Kept t u ref → Kept s u ref
compose s t u ref a b = record {
  highest_status_seq = rw b.highest_status_seq a.highest_status_seq;
  sessions = rw b.sessions a.sessions;
}

pub of_same :
    (s t : WorkerChannelState) (ref : ℕ)
    → SameChannels s t
    → t.hub.sessions ≡ s.hub.sessions
    → Kept s t ref
of_same s t ref k e = record { highest_status_seq = rw (k.heap) refl; sessions = e }

pub idle_of-Kept :
    (s : WorkerChannelState) (id : String) (r ref : ℕ) (a : SessionActivity)
    → Kept s (reconcile_idle_of s id r a) ref
unfolding arm_idle_timer clear_idle_timer disarm
idle_of-Kept s id r ref a = record { highest_status_seq = ground arith; sessions = ground arith }

pub idle-Kept :
    (s : WorkerChannelState) (id : String) (ref : ℕ) (session : Session)
    → Kept s (reconcile_idle_timer s id session) ref
unfolding reconcile_idle_timer
idle-Kept s id ref session = elim (Option-cases (get id s.worker_channels)) [
  | inl e ↦ rw (e, reconcile_idle_timer) (record { highest_status_seq = refl; sessions = refl })
  | inr (r, e) ↦ rw (e, reconcile_idle_timer) (idle_of-Kept s id r ref session.activity)
]

pub enrichment_sessions :
    (s : WorkerChannelState) (id : String) (payload : Json)
    → (buffer_input_request_enrichment s id payload).hub.sessions ≡ s.hub.sessions
unfolding buffer_input_request_enrichment
enrichment_sessions s id payload = ground arith

pub buffer_sessions :
    (s : WorkerChannelState) (id : String) (next : Session)
    → (reconcile_enrichment_buffer s id next).hub.sessions ≡ s.hub.sessions
unfolding reconcile_enrichment_buffer
buffer_sessions s id next = ground arith

pub event_of :
    (frame : Dict Json) (n : ℕ)
    → worker_status_sequence_from_frame frame ≡ some n
    → (e : StatusEvent) × (worker_status_event frame ≡ some e)
unfolding worker_status_sequence_from_frame
event_of frame n q = elim (Option-cases (worker_status_event frame)) [
  | inl w ↦ absurd (let no = rw (w, worker_status_sequence_from_frame) at q in cc no)
  | inr (e, w) ↦ (e, w)
]

pub parts_of :
    (entry : Json) (n : ℕ)
    → number_of (listed entry) ≡ some n
    → (o : Dict Json) × (payload : Json) × (frame : Dict Json) × (as_object entry ≡ some o)
      × (get "payload" o ≡ some payload)
      × (as_object payload ≡ some frame)
      × (worker_status_sequence_from_frame frame ≡ some n)
parts_of entry n q = elim (Option-cases (as_object entry)) [
  | inl e ↦ absurd (let no = rw (e, number_of) at q in cc no)
  | inr (o, e) ↦ elim (Option-cases (get "payload" o)) [
    | inl p ↦ absurd (let no = rw (e, p, number_of, number_in) at q in cc no)
    | inr (payload, p) ↦ elim (Option-cases (as_object payload)) [
      | inl f ↦ absurd (let no = rw (e, p, f, number_of, number_in) at q in cc no)
      | inr (frame, f) ↦ (o, payload, frame, e, p, f, rw (e, p, f, number_of, number_in) at q)
    ]
  ]
]
