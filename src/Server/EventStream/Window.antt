-- ===== src/Server/EventStream/Window.antt =====
-- The replay buffer of packages/server/src/event-stream.ts against the whole history of a session.
use native.Mathlib.Omega.{arith}
use Prim.Native.Nat.{max}
use ccctl.Base.{
  ℕ, zero, suc, ◌+◌, ◌-◌, ◌≤◌, ◌<◌, ◌≡◌, refl, sym, ap, ◌∙◌, inl, inr, String, List, [], ◌∷◌, ◌++◌,
  some, ltb, length, drop, keep, drop-append, drop-drop, drop-nil, ltb→lt, length-drop,
  length-append, Bool-cases, ap₂, lt→ltb,
}
use mathlib.Core.List.{append-nil, append_assoc}
use ccctl.Core.Json.{Json, nonneg}
use ccctl.Server.EventStream.{
  EventStreamState, BufferedEvent, create_event_stream_state, append_event, push_buffer,
  encode_sse_event, is_after, missed,
}

module _ (stringify : Json → String) where
  -- The events of a history under the ids that they get, from `id` on.
  abbrev pub number : ℕ → List Json → List BufferedEvent
  number id [] = []
  number id (p ∷ ps) =
      record { id = id; chunk = encode_sse_event stringify id p } ∷ number (id + 1) ps

  unfoldable pub append_all : EventStreamState → List Json → EventStreamState
  append_all state [] = state
  append_all state (p ∷ ps) = append_all (append_event stringify state p) ps

  -- The state holds the latest events of the history, at most 1024 of them.
  record IsWindow (history : List Json) (state : EventStreamState) : Type 0 where
    next : state.next_event_id ≡ length history + 1
    buffer : state.buffer ≡ drop (length history - 1024) (number 1 history)

  length-number : (id : ℕ) (ps : List Json) → length (number id ps) ≡ length ps
  length-number id [] = refl
  length-number id (p ∷ ps) = ap suc (length-number (id + 1) ps)

  number-append :
      (id : ℕ) (ps qs : List Json)
      → number id (ps ++ qs) ≡ number id ps ++ number (id + length ps) qs
  number-append id [] qs = ap (λ k. number k qs) (omega arith)
  number-append id (p ∷ ps) qs =
      ap (λ t. record { id = id; chunk = encode_sse_event stringify id p } ∷ t)
        (number-append (id + 1) ps qs ∙ ap (λ k. number (id + 1) ps ++ number k qs) (omega arith))

  -- Cutting the buffer to its size takes it to the window of the longer history.
  push_buffer-window :
      (xs : List BufferedEvent) (event : BufferedEvent)
      → push_buffer (drop (length xs - 1024) xs) event
        ≡ drop (length xs + 1 - 1024) (xs ++ event ∷ [])
  unfolding push_buffer
  push_buffer-window xs event =
      rw (← drop-append (length xs - 1024) xs (event ∷ []) (omega arith))
        (elim (Bool-cases (ltb 1024 (length (drop (length xs - 1024) (xs ++ event ∷ []))))) [
          | inl e ↦ rw e (
              drop-drop 1 (length xs - 1024) (xs ++ event ∷ [])
              ∙ ap (λ k. drop k (xs ++ event ∷ []))
                  (ground (
                    arith,
                    length-drop (length xs - 1024) (xs ++ event ∷ []),
                    length-append xs (event ∷ []),
                  )))
          | inr e ↦ rw e (
              ap (λ k. drop k (xs ++ event ∷ []))
                (ground (
                  arith,
                  length-drop (length xs - 1024) (xs ++ event ∷ []),
                  length-append xs (event ∷ []),
                )))
        ])

  append_event-IsWindow :
      (history : List Json) (state : EventStreamState) (p : Json)
      → IsWindow history state
      → IsWindow (history ++ p ∷ []) (append_event stringify state p)
  unfolding append_event
  append_event-IsWindow history state p w =
      let n = number 1 history in
      let event = λ (id : ℕ).
        let e : BufferedEvent = record { id = id; chunk = encode_sse_event stringify id p } in e in
      record {
        next = omega (arith, w.next, length-append history (p ∷ []));
        buffer =
            ap (λ b. push_buffer b (event state.next_event_id))
              (w.buffer ∙ ap (λ k. drop (k - 1024) n) (sym (length-number 1 history)))
            ∙ push_buffer-window n (event state.next_event_id)
            ∙ ap₂ drop {x = length n + 1 - 1024} {y = length (history ++ p ∷ []) - 1024}
                (omega (arith, length-number 1 history, length-append history (p ∷ [])))
                (ap (λ k. n ++ event k ∷ []) {x = state.next_event_id} {y = 1 + length history}
                    (omega (arith, w.next))
                  ∙ sym (number-append 1 history (p ∷ [])));
      }

  append_all-IsWindow :
      (before ps : List Json) (state : EventStreamState)
      → IsWindow before state
      → IsWindow (before ++ ps) (append_all state ps)
  unfolding append_all
  append_all-IsWindow before [] state w = rw (append-nil before) w
  append_all-IsWindow before (p ∷ ps) state w =
      rw (← append_assoc before (p ∷ []) ps)
        (append_all-IsWindow (before ++ p ∷ []) ps _ (append_event-IsWindow before state p w))

  history-IsWindow : (ps : List Json) → IsWindow ps (append_all create_event_stream_state ps)
  history-IsWindow ps =
      append_all-IsWindow [] ps create_event_stream_state
        (record { next = omega arith; buffer = refl })

  -- After a session's events the next one gets the number after theirs, and the buffer holds the latest of
  -- them under their numbers, 1024 at most.
  pub append_all-window :
      (ps : List Json)
      → ((append_all create_event_stream_state ps).next_event_id ≡ length ps + 1)
        × ((append_all create_event_stream_state ps).buffer ≡ drop (length ps - 1024) (number 1 ps))
        × (length (append_all create_event_stream_state ps).buffer ≤ 1024)
  append_all-window ps =
      let w = history-IsWindow ps in
      (
        w.next,
        w.buffer,
        rw w.buffer
            (omega (arith, length-drop (length ps - 1024) (number 1 ps), length-number 1 ps)),
      )

  keep_all :
      (last id : ℕ) (ps : List Json)
      → last < id
      → keep (is_after (nonneg last)) (number id ps) ≡ number id ps
  keep_all last id [] h = refl
  keep_all last id (p ∷ ps) h =
      rw (lt→ltb last id h) (rw (keep_all last (id + 1) ps (omega arith)) refl)

  -- The events after `last`, of a run of numbered events.
  keep-number :
      (last id : ℕ) (ps : List Json)
      → keep (is_after (nonneg last)) (number id ps) ≡ drop (last + 1 - id) (number id ps)
  keep-number last id [] = sym (drop-nil (last + 1 - id))
  keep-number last id (p ∷ ps) = elim (Bool-cases (ltb last id)) [
    | inl e ↦
        let none_before : last + 1 - id ≡ 0 = ground arith in
        keep_all last id (p ∷ ps) (ltb→lt last id e)
        ∙ ap (λ k. drop k (number id (p ∷ ps))) (sym none_before)
    | inr e ↦
        let one_before : last + 1 - id ≡ suc (last + 1 - (id + 1)) = ground arith in
        rw e (keep-number last (id + 1) ps ∙ ap (λ k. drop k (number id (p ∷ ps))) (sym one_before))
  ]

  drop-number : (d id : ℕ) (ps : List Json) → drop d (number id ps) ≡ number (id + d) (drop d ps)
  drop-number zero id ps = ap (λ k. number k ps) {x = id} {y = id + 0} (omega arith)
  drop-number (suc d) id [] = refl
  drop-number (suc d) id (p ∷ ps) =
      drop-number d (id + 1) ps
      ∙ ap (λ k. number k (drop d ps)) {x = id + 1 + d} {y = id + suc d} (omega arith)

  -- A client that reconnects and names the last event that it saw is sent exactly the events after it, in
  -- order, each once, as far back as the latest 1024; so it misses none if at most 1024 came since.
  pub missed-append_all :
      (ps : List Json) (last : ℕ)
      → missed (some (nonneg last)) (append_all create_event_stream_state ps).buffer
        ≡ drop (max (length ps - 1024) last) (number 1 ps)
  missed-append_all ps last =
      let d = length ps - 1024 in
      ap (keep (is_after (nonneg last))) ((append_all-window ps).1 ∙ drop-number d 1 ps)
      ∙ keep-number last (1 + d) (drop d ps)
      ∙ ap (drop (last + 1 - (1 + d))) (sym (drop-number d 1 ps))
      ∙ drop-drop (last + 1 - (1 + d)) d (number 1 ps)
      ∙ ap (λ k. drop k (number 1 ps)) {x = d + (last + 1 - (1 + d))} {y = max d last} (omega arith)
