-- ===== src/Server/Worker/Sequences.antt =====
-- A status report that comes late to packages/server/src/worker-channel.ts is refused.
use native.Mathlib.Omega.{arith}
use ccctl.Base.{
  ℕ, ◌<◌, ◌≤◌, ◌≡◌, refl, ap, inl, inr, String, true, ltb, List, [], ◌∷◌, Option, none, some,
  Option-cases, Bool-cases,
}
use ccctl.Base.Dict.{Dict, get, get-set_self}
use ccctl.Core.Json.{Json, as_object}
use ccctl.Core.Session.{
  Session, WorkerStatus, apply_worker_status, apply_worker_status_frame, worker_status_event,
  worker_status_sequence_from_frame, is_stale_worker_status_sequence,
}
use ccctl.Server.Worker.{
  Environment, WorkerChannelState, reconcile_idle_timer, reconcile_needs_input, broadcast,
}
use ccctl.Server.Worker.Handoff.{Disk}
use ccctl.Server.Worker.Handlers.{
  put_session, record_status_sequence, refuse_stale_status_frame, reconcile_enrichment_buffer,
  highest, buffer_input_request_enrichment,
}
use ccctl.Server.Worker.Status.{
  reconcile_hook_handoff, take_handoff, settle, fold_worker_status, take_event, take_status,
}
use ccctl.Server.Worker.Owned.{needs_input-SameChannels}
use ccctl.Server.Worker.Requests.{
  enrichment-SameChannels, buffer-SameChannels, handoff-SameChannels,
}
use ccctl.Server.Worker.Reports.{
  Report, number_of, Marked, highest_mark, Kept, compose, of_same, idle-Kept, enrichment_sessions,
  buffer_sessions, event_of, parts_of, put, listed,
}

module _ (env : Environment) (parse : String → Option Json) (disk : ℕ → ℕ → Disk) where
  abbrev pub deliver : WorkerChannelState → ℕ → String → ℕ → Report → WorkerChannelState
  deliver s ref id now (put status sequence) =
      take_status env parse disk s ref id status sequence now
  deliver s ref id now (listed entry) = take_event env parse disk s ref id now entry

  needs_input_sessions :
      (s : WorkerChannelState) (id : String) (prev next : Session) (now : ℕ)
      → (reconcile_needs_input env s id prev next now).hub.sessions ≡ s.hub.sessions
  unfolding reconcile_needs_input broadcast
  needs_input_sessions s id prev next now = ground arith

  handoff_sessions :
      (s : WorkerChannelState) (id : String) (prior next : Session) (sequence : Option ℕ)
      → (reconcile_hook_handoff env parse disk s id prior next sequence).hub.sessions
        ≡ s.hub.sessions
  unfolding reconcile_hook_handoff take_handoff buffer_input_request_enrichment
  handoff_sessions s id prior next sequence = ground arith

  settle-Kept :
      (s : WorkerChannelState) (ref : ℕ) (id : String) (session next : Session)
      (sequence : Option ℕ) (now : ℕ)
      → Kept (put_session s id next) (settle env parse disk s id session next sequence now) ref
  unfolding settle
  settle-Kept s ref id session next sequence now =
      let start = put_session s id next in
      let idled = reconcile_idle_timer start id next in
      let told = reconcile_needs_input env idled id session next now in
      let kept = reconcile_enrichment_buffer told id next in
      compose start idled _ ref (idle-Kept start id ref next) (
        compose idled told _ ref
          (of_same idled told ref (needs_input-SameChannels env idled id session next now)
            (needs_input_sessions idled id session next now))
          (compose told kept _ ref
            (of_same told kept ref (buffer-SameChannels told id next)
              (buffer_sessions told id next))
            (of_same kept (reconcile_hook_handoff env parse disk kept id session next sequence) ref
              (handoff-SameChannels env parse disk kept id session next sequence)
              (handoff_sessions kept id session next sequence))))

  settle-Marked :
      (s : WorkerChannelState) (ref : ℕ) (id : String) (session next : Session)
      (sequence : Option ℕ) (n now : ℕ)
      → sequence ≡ some n
      → Marked
          (settle env parse disk
            (record_status_sequence s ref sequence)
            id
            session
            next
            sequence
            now)
          ref
          id
          n
  settle-Marked s ref id session next sequence n now q =
      let recorded = record_status_sequence s ref sequence in
      let k = settle-Kept recorded ref id session next sequence now in
      let (mark, marked, below) = highest_mark n (s.heap ref).highest_status_seq in
      record {
        mark = mark;
        marked = rw k.highest_status_seq (ground (arith, q, marked));
        below = below;
        session = next;
        present = rw k.sessions (get-set_self id next s.hub.sessions);
      }

  broadcast-Marked :
      (s : WorkerChannelState) (ref : ℕ) (id : String) (n : ℕ) (payload : Json)
      → Marked s ref id n
      → Marked (broadcast env (buffer_input_request_enrichment s id payload) id payload) ref id n
  unfolding broadcast
  broadcast-Marked s ref id n payload k = record {
    mark = k.mark;
    marked = rw ((enrichment-SameChannels s id payload).heap) k.marked;
    below = k.below;
    session = k.session;
    present = rw (enrichment_sessions s id payload) k.present;
  }

  -- A report that is refused has found a higher mark.
  refused-Marked :
      (s : WorkerChannelState) (ref : ℕ) (id : String) (n : ℕ) (session : Session)
      → get id s.hub.sessions ≡ some session
      → refuse_stale_status_frame s ref (some n) ≡ true
      → Marked s ref id n
  unfolding is_stale_worker_status_sequence
  refused-Marked s ref id n session g k = elim (Option-cases (s.heap ref).highest_status_seq) [
    | inl e ↦ absurd (ground arith)
    | inr (mark, e) ↦ record {
      mark = mark;
      marked = e;
      below = ground arith;
      session = session;
      present = g;
    }
  ]

  Marked-refused :
      (s : WorkerChannelState) (ref : ℕ) (id : String) (n m : ℕ)
      → Marked s ref id n
      → m < n
      → refuse_stale_status_frame s ref (some m) ≡ true
  unfolding is_stale_worker_status_sequence
  Marked-refused s ref id n m k below = ground (arith, k.marked, k.below)

  take_status-Marked :
      (s : WorkerChannelState) (ref : ℕ) (id : String) (status : WorkerStatus) (n now : ℕ)
      (session : Session)
      → get id s.hub.sessions ≡ some session
      → Marked (take_status env parse disk s ref id status (some n) now) ref id n
  unfolding take_status
  take_status-Marked s ref id status n now session g =
      elim (Bool-cases (refuse_stale_status_frame s ref (some n))) [
        | inl k ↦ rw (g, k, take_status) (refused-Marked s ref id n session g k)
        | inr k ↦
            rw (g, k, take_status)
              (settle-Marked s ref id session (apply_worker_status session status none now) (some n)
                n now refl)
      ]

  fold-Marked :
      (s : WorkerChannelState) (ref : ℕ) (id : String) (payload : Json) (frame : Dict Json)
      (n now : ℕ) (session : Session)
      → get id s.hub.sessions ≡ some session
      → as_object payload ≡ some frame
      → worker_status_sequence_from_frame frame ≡ some n
      → Marked (fold_worker_status env parse disk s ref id payload now).1 ref id n
  unfolding fold_worker_status
  fold-Marked s ref id payload frame n now session g f q =
      let (event, w) = event_of frame n q in
      elim (Bool-cases
        (refuse_stale_status_frame s ref (worker_status_sequence_from_frame frame))) [
          | inl k ↦
              rw (f, g, k, fold_worker_status) (refused-Marked s ref id n session g (rw q at k))
          | inr k ↦
              rw (f, g, k, w, fold_worker_status)
                (settle-Marked s ref id session (apply_worker_status_frame session frame now)
                  (worker_status_sequence_from_frame frame) n now q)
        ]

  take_event-Marked :
      (s : WorkerChannelState) (ref : ℕ) (id : String) (entry : Json) (n now : ℕ)
      (session : Session)
      → get id s.hub.sessions ≡ some session
      → number_of (listed entry) ≡ some n
      → Marked (take_event env parse disk s ref id now entry) ref id n
  unfolding take_event
  take_event-Marked s ref id entry n now session g q =
      let (o, payload, frame, e, p, f, r) = parts_of entry n q in
      let folded = fold_worker_status env parse disk s ref id payload now in
      let marked = fold-Marked s ref id payload frame n now session g f r in
      elim (Bool-cases folded.0) [
        | inl k ↦ rw (e, p, k, take_event) marked
        | inr k ↦ rw (e, p, k, take_event) (broadcast-Marked folded.1 ref id n payload marked)
      ]

  deliver-Marked :
      (s : WorkerChannelState) (ref : ℕ) (id : String) (x : Report) (n now : ℕ) (session : Session)
      → get id s.hub.sessions ≡ some session
      → number_of x ≡ some n
      → Marked (deliver s ref id now x) ref id n
  deliver-Marked s ref id (put status sequence) n now session g q =
      rw q (take_status-Marked s ref id status n now session g)
  deliver-Marked s ref id (listed entry) n now session g q =
      take_event-Marked s ref id entry n now session g q

  fold-late :
      (s : WorkerChannelState) (ref : ℕ) (id : String) (payload : Json) (frame : Dict Json)
      (n m now : ℕ)
      → Marked s ref id n
      → as_object payload ≡ some frame
      → worker_status_sequence_from_frame frame ≡ some m
      → m < n
      → fold_worker_status env parse disk s ref id payload now ≡ (true, s)
  unfolding fold_worker_status
  fold-late s ref id payload frame n m now k f q below =
      rw (f, k.present, q, Marked-refused s ref id n m k below, fold_worker_status) refl

  take_status-late :
      (s : WorkerChannelState) (ref : ℕ) (id : String) (status : WorkerStatus) (n m now : ℕ)
      → Marked s ref id n
      → m < n
      → take_status env parse disk s ref id status (some m) now ≡ s
  unfolding take_status
  take_status-late s ref id status n m now k below =
      rw (k.present, Marked-refused s ref id n m k below, take_status) refl

  Marked-late :
      (s : WorkerChannelState) (ref : ℕ) (id : String) (x : Report) (n m now : ℕ)
      → Marked s ref id n
      → number_of x ≡ some m
      → m < n
      → deliver s ref id now x ≡ s
  unfolding take_event
  Marked-late s ref id (put status sequence) n m now k q below =
      rw q (take_status-late s ref id status n m now k below)
  Marked-late s ref id (listed entry) n m now k q below =
      let (o, payload, frame, e, p, f, r) = parts_of entry m q in
      let late = fold-late s ref id payload frame n m now k f r below in
      rw (e, p, ap (λ x. x.0) late, take_event) (ap (λ x. x.1) late)

  highest_grows : (q : Option ℕ) (old : ℕ) → (m : ℕ) × (highest q (some old) ≡ some m) × (old ≤ m)
  highest_grows none old = (old, refl, omega arith)
  highest_grows (some n) old = elim (Bool-cases (ltb old n)) [
    | inl k ↦ (n, ground arith, ground arith)
    | inr k ↦ (old, ground arith, ground arith)
  ]

  recorded-Marked :
      (s : WorkerChannelState) (ref : ℕ) (id : String) (n : ℕ) (q : Option ℕ)
      → Marked s ref id n
      → Marked (record_status_sequence s ref q) ref id n
  recorded-Marked s ref id n q k =
      let (mark, marked, up) = highest_grows q k.mark in
      record {
        mark = mark;
        marked = ground (arith, k.marked, marked);
        below = omega (arith, up, k.below);
        session = k.session;
        present = k.present;
      }

  settle-stays :
      (s : WorkerChannelState) (ref : ℕ) (id : String) (n : ℕ) (q : Option ℕ)
      (session next : Session) (now : ℕ)
      → Marked s ref id n
      → Marked
          (settle env parse disk (record_status_sequence s ref q) id session next q now)
          ref
          id
          n
  settle-stays s ref id n q session next now k =
      let recorded = record_status_sequence s ref q in
      let noted = recorded-Marked s ref id n q k in
      let kept = settle-Kept recorded ref id session next q now in
      record {
        mark = noted.mark;
        marked = rw kept.highest_status_seq noted.marked;
        below = noted.below;
        session = next;
        present = rw kept.sessions (get-set_self id next s.hub.sessions);
      }

  fold-stays :
      (s : WorkerChannelState) (ref : ℕ) (id : String) (n : ℕ) (payload : Json) (now : ℕ)
      → Marked s ref id n
      → Marked (fold_worker_status env parse disk s ref id payload now).1 ref id n
  unfolding fold_worker_status
  fold-stays s ref id n payload now k = elim (Option-cases (as_object payload)) [
    | inl f ↦ rw (f, fold_worker_status) k
    | inr (frame, f) ↦
        let q = worker_status_sequence_from_frame frame in
        let session = k.session in
        elim (Bool-cases (refuse_stale_status_frame s ref q)) [
          | inl r ↦ rw (f, k.present, r, fold_worker_status) k
          | inr r ↦ elim (Option-cases (worker_status_event frame)) [
            | inl w ↦ rw (f, k.present, r, w, fold_worker_status) (recorded-Marked s ref id n q k)
            | inr (e, w) ↦
                rw (f, k.present, r, w, fold_worker_status)
                  (settle-stays s ref id n q session (apply_worker_status_frame session frame now)
                    now k)
          ]
        ]
  ]

  take_event-stays :
      (s : WorkerChannelState) (ref : ℕ) (id : String) (n : ℕ) (entry : Json) (now : ℕ)
      → Marked s ref id n
      → Marked (take_event env parse disk s ref id now entry) ref id n
  unfolding take_event
  take_event-stays s ref id n entry now k = elim (Option-cases (as_object entry)) [
    | inl e ↦ rw (e, take_event) k
    | inr (o, e) ↦ elim (Option-cases (get "payload" o)) [
      | inl p ↦ rw (e, p, take_event) k
      | inr (payload, p) ↦
          let folded = fold_worker_status env parse disk s ref id payload now in
          let marked = fold-stays s ref id n payload now k in
          elim (Bool-cases folded.0) [
            | inl r ↦ rw (e, p, r, take_event) marked
            | inr r ↦ rw (e, p, r, take_event) (broadcast-Marked folded.1 ref id n payload marked)
          ]
    ]
  ]

  -- Any report, with a number or without, leaves the mark at least where it is.
  deliver-stays :
      (s : WorkerChannelState) (ref : ℕ) (id : String) (n : ℕ) (x : Report) (now : ℕ)
      → Marked s ref id n
      → Marked (deliver s ref id now x) ref id n
  unfolding take_status
  deliver-stays s ref id n (put status q) now k =
      elim (Bool-cases (refuse_stale_status_frame s ref q)) [
        | inl r ↦ rw (k.present, r, take_status) k
        | inr r ↦
            rw (k.present, r, take_status)
              (settle-stays s ref id n q k.session (apply_worker_status k.session status none now)
                now k)
      ]
  deliver-stays s ref id n (listed entry) now k = take_event-stays s ref id n entry now k

  -- Reports, each at its time.
  abbrev pub deliver_all : WorkerChannelState → ℕ → String → List (Report × ℕ) → WorkerChannelState
  deliver_all s ref id [] = s
  deliver_all s ref id ((x, now) ∷ xs) = deliver_all (deliver s ref id now x) ref id xs

  deliver_all-stays :
      (s : WorkerChannelState) (ref : ℕ) (id : String) (n : ℕ) (xs : List (Report × ℕ))
      → Marked s ref id n
      → Marked (deliver_all s ref id xs) ref id n
  deliver_all-stays s ref id n [] k = k
  deliver_all-stays s ref id n ((x, now) ∷ xs) k =
      deliver_all-stays (deliver s ref id now x) ref id n xs (deliver-stays s ref id n x now k)

  -- A report whose number is below that of an earlier one to the same record changes nothing and is shown to no
  -- client, whatever reports came between, with numbers or without, and whichever of the two legs each came by,
  -- as long as the session was there for the earlier one.
  pub deliver-late :
      (s : WorkerChannelState) (ref : ℕ) (id : String) (session : Session) (x y : Report)
      (between : List (Report × ℕ)) (n m now later : ℕ)
      → get id s.hub.sessions ≡ some session
      → number_of x ≡ some n
      → number_of y ≡ some m
      → m < n
      → let t = deliver_all (deliver s ref id now x) ref id between in deliver t ref id later y ≡ t
  deliver-late s ref id session x y between n m now later g q r below =
      let first = deliver s ref id now x in
      Marked-late (deliver_all first ref id between) ref id y n m later
        (deliver_all-stays first ref id n between (deliver-Marked s ref id x n now session g q)) r
        below
