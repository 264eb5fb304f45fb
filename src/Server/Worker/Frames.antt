-- ===== src/Server/Worker/Frames.antt =====
-- What a worker is sent by packages/server/src/worker-channel.ts: frames under consecutive numbers.
use native.Mathlib.Omega.{arith}
use mathlib.Core.List.{append_assoc, append-nil}
use ccctl.Base.{ℕ, ◌+◌, ◌≡◌, refl, sym, String, List, [], ◌∷◌, ◌++◌, Option, none, some, length}
use ccctl.Base.Dict.{get}
use Prim.Native.String.{◌++◌ as ◌+++◌}
use ccctl.Core.Json.{Json, num, nonneg, str, obj, field, end}
use ccctl.Core.Enrichment.{decimal}
use ccctl.Server.Worker.{
  Environment, WorkerChannelState, clear_idle_timer, disarm, client_event_frame,
  write_client_event_frame, push_client_event,
}

module _ (env : Environment) where
  -- Pushes of several payloads, one after the other.
  unfoldable pub push_all : WorkerChannelState → String → List Json → Option WorkerChannelState
  unfolding push_client_event
  push_all s id [] = some s
  push_all s id (p ∷ ps) = elim (push_client_event env s id p) [
    | none ↦ none
    | some t ↦ push_all t id ps
  ]

  -- The frames for payloads in order, from a number and a count of the identifiers drawn: each is an event of the
  -- kind `client_event` under its number, whose data is the JSON of number, identifier and payload.
  abbrev pub frames : ℕ → ℕ → ℕ → List Json → List (ℕ × String)
  frames res seq uuid [] = []
  frames res seq uuid (p ∷ ps) =
      (
        res,
        "event: client_event\nid: "
            +++ (decimal seq
                +++ ("\ndata: "
                    +++ (env.stringify (
                          obj (
                            field "sequence_num" (num (nonneg seq)) (
                              field "event_id" (str (env.uuid uuid))
                                (field "event_type" (str "message") (field "payload" p end)))))
                        +++ "\n\n"))),
      )
      ∷ frames res (seq + 1) (uuid + 1) ps

  record Pushed (s t : WorkerChannelState) (id : String) (ref res : ℕ) (payloads : List Json)
      : Type 0 where
    written :
        t.hub.wire.written ≡ s.hub.wire.written ++ frames res (s.heap ref).next_seq s.uuids payloads
    next_seq : (t.heap ref).next_seq ≡ (s.heap ref).next_seq + length payloads
    uuids : t.uuids ≡ s.uuids + length payloads
    there : get id t.worker_channels ≡ some ref
    downstream : (t.heap ref).downstream ≡ some res

  push_lem :
      (s : WorkerChannelState) (id : String) (ref res : ℕ) (p : Json)
      → get id s.worker_channels ≡ some ref
      → (s.heap ref).downstream ≡ some res
      → push_client_event env s id p
        ≡ some (write_client_event_frame env (clear_idle_timer s ref) ref p)
  unfolding push_client_event
  push_lem s id ref res p g d = ground arith

  write-Pushed :
      (s : WorkerChannelState) (id : String) (ref res : ℕ) (p : Json)
      → get id s.worker_channels ≡ some ref
      → (s.heap ref).downstream ≡ some res
      → Pushed s (write_client_event_frame env (clear_idle_timer s ref) ref p) id ref res (p ∷ [])
  unfolding write_client_event_frame client_event_frame clear_idle_timer disarm
  write-Pushed s id ref res p g d = record {
    written = ground arith;
    next_seq = ground arith;
    uuids = ground arith;
    there = ground arith;
    downstream = ground arith;
  }

  push_all_first :
      (s : WorkerChannelState) (id : String) (u t : WorkerChannelState) (p : Json) (ps : List Json)
      → push_client_event env s id p ≡ some u
      → push_all u id ps ≡ some t
      → push_all s id (p ∷ ps) ≡ some t
  unfolding push_all
  push_all_first s id u t p ps a b = rw (a, push_all) b

  Pushed-trans :
      (s u t : WorkerChannelState) (id : String) (ref res : ℕ) (p : Json) (ps : List Json)
      → Pushed s u id ref res (p ∷ [])
      → Pushed u t id ref res ps
      → Pushed s t id ref res (p ∷ ps)
  Pushed-trans s u t id ref res p ps a b = record {
    written = rw (b.written, a.written, a.next_seq, a.uuids) (append_assoc s.hub.wire.written _ _);
    next_seq = ground (arith, a.next_seq, b.next_seq);
    uuids = ground (arith, a.uuids, b.uuids);
    there = b.there;
    downstream = b.downstream;
  }

  push_all-Pushed :
      (s : WorkerChannelState) (id : String) (ref res : ℕ) (ps : List Json)
      → get id s.worker_channels ≡ some ref
      → (s.heap ref).downstream ≡ some res
      → (t : WorkerChannelState) × (push_all s id ps ≡ some t) × Pushed s t id ref res ps
  unfolding push_all
  push_all-Pushed s id ref res [] g d = (
    s,
    refl,
    record {
      written = sym (append-nil _);
      next_seq = ground arith;
      uuids = ground arith;
      there = g;
      downstream = d;
    },
  )
  push_all-Pushed s id ref res (p ∷ ps) g d =
      let first = write_client_event_frame env (clear_idle_timer s ref) ref p in
      let a = write-Pushed s id ref res p g d in
      let (t, e, b) = push_all-Pushed first id ref res ps a.there a.downstream in
      (
        t,
        push_all_first s id first t p ps (push_lem s id ref res p g d) e,
        Pushed-trans s first t id ref res p ps a b,
      )

  -- Payloads pushed to a session whose stream is open all reach it, each once, in order, under the numbers from the
  -- next one on, with the next identifier that is drawn, and with the payload as their data.
  pub push_all_lem :
      (s : WorkerChannelState) (id : String) (ref res : ℕ) (ps : List Json)
      → get id s.worker_channels ≡ some ref
      → (s.heap ref).downstream ≡ some res
      → (t : WorkerChannelState) × (push_all s id ps ≡ some t)
        × (t.hub.wire.written ≡ s.hub.wire.written ++ frames res (s.heap ref).next_seq s.uuids ps)
        × ((t.heap ref).next_seq ≡ (s.heap ref).next_seq + length ps)
  push_all_lem s id ref res ps g d =
      let (t, e, k) = push_all-Pushed s id ref res ps g d in (t, e, k.written, k.next_seq)
