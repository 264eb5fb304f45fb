-- ===== src/Server/Worker/Evictions.antt =====
-- The end of a silent session in packages/server/src/worker-channel.ts.
use native.Mathlib.Omega.{arith}
use ccctl.Base.{
  ℕ, ◌≡◌, ◌≢◌, refl, ap, ◌∙◌, if◌then◌else◌, not, inl, inr, String, Bool, true, false, ◌&&◌, Option,
  none, some, Option-cases, Bool-cases,
}
use ccctl.Base.Dict.{get, delete}
use ccctl.Core.Session.{Session, is_session_stale}
use ccctl.Core.Json.{Json}
use ccctl.Server.Close.{SessionCloseState, close_session, end_session, remove_hooks}
use ccctl.Server.Worker.Timers.{end_downstream-Ended}
use ccctl.Server.Worker.{
  Environment, WorkerChannelState, is_current_record, end_downstream, reap_worker_channel,
  schedule_eviction, evict, decide_eviction, consider_eviction, put_record, clear_liveness_timer,
  clear_eviction_timer, clear_idle_timer, disarm,
}

pub end_downstream_sessions :
    (s : WorkerChannelState) (ref : ℕ) → (end_downstream s ref).hub.sessions ≡ s.hub.sessions
unfolding end_downstream clear_liveness_timer clear_eviction_timer clear_idle_timer disarm
end_downstream_sessions s ref = ground arith

abbrev pub is_absent : Option ℕ → Bool
is_absent none = true
is_absent (some res) = false

-- A record that waits for its worker: it is the current one, and no stream is open.
abbrev pub is_alone : WorkerChannelState → String → ℕ → Bool
is_alone s id ref = is_current_record s id ref && is_absent (s.heap ref).downstream

pub reap-lem :
    (s : WorkerChannelState) (id : String) (ref : ℕ)
    → get id s.worker_channels ≡ some ref
    → let t = reap_worker_channel s id in
      (t.hub.sessions ≡ s.hub.sessions)
      × (t.worker_channels ≡ delete id s.worker_channels)
      × ((t.heap ref).eviction_timer ≡ none)
unfolding reap_worker_channel
reap-lem s id ref g =
    let e = end_downstream-Ended s ref in
    rw (g, reap_worker_channel)
      (end_downstream_sessions s ref, ap (delete id) e.channels, rw e.quiet refl)

end_downstream_armed :
    (s : WorkerChannelState) (ref timer : ℕ)
    → (s.heap ref).liveness_timer ≢ some timer
    → (s.heap ref).eviction_timer ≡ none
    → (s.heap ref).idle_timer ≢ some timer
    → (end_downstream s ref).armed timer ≡ s.armed timer
unfolding end_downstream clear_liveness_timer clear_eviction_timer clear_idle_timer disarm
end_downstream_armed s ref timer a b c = ground (arith, a, b, c)

pub close_sessions :
    (stringify : Json → String) (s : SessionCloseState) (id : String) (session : Session)
    → get id s.sessions ≡ some session
    → (close_session stringify s id).1.sessions ≡ delete id s.sessions
unfolding close_session end_session remove_hooks
close_sessions stringify s id session g = rw (g, close_session) (ground arith)

-- What the end of a record leaves alone: a record other than it, and a timer that it does not hold.
abbrev pub Apart : WorkerChannelState → ℕ → ℕ → ℕ → Type 0
Apart s ref other timer =
    (other ≢ ref)
    × ((s.heap ref).liveness_timer ≢ some timer)
    × ((s.heap ref).idle_timer ≢ some timer)
    × (timer ≢ s.next_timer)

abbrev Untouched : WorkerChannelState → WorkerChannelState → ℕ → ℕ → Type 0
Untouched s t other timer = (t.heap other ≡ s.heap other) × (t.armed timer ≡ s.armed timer)

reap-Apart :
    (s : WorkerChannelState) (id : String) (ref other timer : ℕ)
    → get id s.worker_channels ≡ some ref
    → (s.heap ref).eviction_timer ≡ none
    → Apart s ref other timer
    → Untouched s (reap_worker_channel s id) other timer
unfolding reap_worker_channel
reap-Apart s id ref other timer g quiet a =
    rw (g, reap_worker_channel)
      (
        (end_downstream-Ended s ref).others other a.0,
        end_downstream_armed s ref timer a.1 quiet a.2,
      )

module _ (env : Environment) where
  evict-Apart :
      (s : WorkerChannelState) (id : String) (ref other timer : ℕ)
      → get id s.worker_channels ≡ some ref
      → (s.heap ref).eviction_timer ≡ none
      → Apart s ref other timer
      → Untouched s (evict env s id) other timer
  unfolding evict
  evict-Apart s id ref other timer g quiet a =
      reap-Apart (record s { hub = (close_session env.stringify s.hub id).1 }) id ref other timer g
        quiet a

  decide-Apart :
      (s : WorkerChannelState) (id : String) (ref now other timer : ℕ)
      → (s.heap ref).eviction_timer ≡ none
      → Apart s ref other timer
      → Untouched s (decide_eviction env s id ref now) other timer
  unfolding decide_eviction schedule_eviction
  decide-Apart s id ref now other timer quiet a = elim (Bool-cases (is_current_record s id ref)) [
    | inr c ↦ rw (c, decide_eviction) (refl, refl)
    | inl c ↦ elim (Option-cases (s.heap ref).downstream) [
      | inr (res, e) ↦ rw (c, e, decide_eviction) (refl, refl)
      | inl e ↦ elim (Option-cases (get id s.hub.sessions)) [
        | inl g ↦ rw (c, e, g, decide_eviction) (refl, refl)
        | inr (session, g) ↦
            elim (Bool-cases (is_session_stale session now env.session_eviction_grace_ms)) [
              | inl k ↦
                  rw (c, e, g, k, decide_eviction)
                    (evict-Apart s id ref other timer (ground arith) quiet a)
              | inr k ↦ rw (c, e, g, k, decide_eviction) (ground (arith, a.0), ground (arith, a.3))
            ]
      ]
    ]
  ]

  evict-lem :
      (s : WorkerChannelState) (id : String) (session : Session) (ref : ℕ)
      → get id s.hub.sessions ≡ some session
      → get id s.worker_channels ≡ some ref
      → let t = evict env s id in
        (t.hub.sessions ≡ delete id s.hub.sessions)
        × (t.worker_channels ≡ delete id s.worker_channels)
        × ((t.heap ref).eviction_timer ≡ none)
  unfolding evict
  evict-lem s id session ref g c =
      let closed = record s { hub = (close_session env.stringify s.hub id).1 } in
      let (sessions, channels, timer) = reap-lem closed id ref c in
      (rw sessions (close_sessions env.stringify s.hub id session g), channels, timer)

  decide_eviction_lem :
      (s : WorkerChannelState) (id : String) (ref now : ℕ) (session : Session) (stream : Option ℕ)
      → get id s.hub.sessions ≡ some session
      → (s.heap ref).downstream ≡ stream
      → (s.heap ref).eviction_timer ≡ none
      → let t = decide_eviction env s id ref now in
        let stale = is_session_stale session now env.session_eviction_grace_ms in
        let alone = is_current_record s id ref && is_absent stream in
        let silent = alone && stale in
        (t.hub.sessions ≡ (if silent then delete id s.hub.sessions else s.hub.sessions))
        × (t.worker_channels ≡ (if silent then delete id s.worker_channels else s.worker_channels))
        × ((t.heap ref).eviction_timer ≡ (if alone && not stale then some s.next_timer else none))
  unfolding decide_eviction schedule_eviction
  decide_eviction_lem s id ref now session stream g d quiet =
      elim (Bool-cases (is_current_record s id ref)) [
        | inr c ↦ rw (c, decide_eviction) (refl, refl, quiet)
        | inl c ↦ elim (Option-cases stream) [
          | inr (res, e) ↦ rw (c, d ∙ e, e, decide_eviction) (refl, refl, quiet)
          | inl e ↦ elim (Bool-cases (is_session_stale session now env.session_eviction_grace_ms)) [
            | inl k ↦
                rw (c, d ∙ e, e, g, k, decide_eviction)
                  (evict-lem s id session ref g (ground arith))
            | inr k ↦ rw (c, d ∙ e, e, g, k, decide_eviction) (refl, refl, ground arith)
          ]
        ]
      ]

  -- The timer of the grace ends the session and forgets its channel exactly if its record is the current one, no
  -- stream has been opened since and the last heartbeat is older than the grace. A record that waits for its
  -- worker while the heartbeat is young gets the next timer, and any other record is left with none. The other
  -- sessions and channels stay listed; any other record stays as it is, and so does every timer that is neither
  -- held by this record nor that next one.
  pub consider_eviction_lem :
      (s : WorkerChannelState) (id : String) (ref now other timer : ℕ) (session : Session)
      → get id s.hub.sessions ≡ some session
      → Apart s ref other timer
      → let t = consider_eviction env s id ref now in
        let stale = is_session_stale session now env.session_eviction_grace_ms in
        let silent = is_alone s id ref && stale in
        (t.hub.sessions ≡ (if silent then delete id s.hub.sessions else s.hub.sessions))
        × (t.worker_channels ≡ (if silent then delete id s.worker_channels else s.worker_channels))
        × ((t.heap ref).eviction_timer
            ≡ (if is_alone s id ref && not stale then some s.next_timer else none))
        × (t.heap other ≡ s.heap other)
        × (t.armed timer ≡ s.armed timer)
  unfolding consider_eviction
  consider_eviction_lem s id ref now other timer session g apart =
      let quiet = put_record s ref (record (s.heap ref) { eviction_timer = none }) in
      let same : (quiet.heap ref).downstream ≡ (s.heap ref).downstream = ground arith in
      let (sessions, channels, grace) =
        decide_eviction_lem quiet id ref now session (s.heap ref).downstream g same
          (ground arith) in
      let (heap, armed) =
        decide-Apart quiet id ref now other timer (ground arith)
          (apart.0, ground (arith, apart.1), ground (arith, apart.2), apart.3) in
      let away : quiet.heap other ≡ s.heap other = ground (arith, apart.0) in
      (sessions, channels, grace, heap ∙ away, armed)
