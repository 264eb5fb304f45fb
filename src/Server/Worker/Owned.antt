-- ===== src/Server/Worker/Owned.antt =====
-- Every step of packages/server/src/worker-channel.ts keeps the timers in hand.
use native.Mathlib.Omega.{arith}
use ccctl.Base.{
  ℕ, ◌+◌, ◌<◌, ◌≡◌, refl, subst, inl, inr, String, not, ◌||◌, Option, none, some, ◌==◌, any,
  Option-cases, Bool-cases,
}
use ccctl.Base.Dict.{get, delete, get-set, get-delete}
use ccctl.Core.Json.{Json, unsome}
use ccctl.Core.Session.{Session, SessionActivity, is_running, is_idle, awaits, is_session_stale}
use ccctl.Server.Close.{close_session}
use ccctl.Server.Worker.{
  Environment, WorkerChannelRecord, WorkerChannelState, eviction, idle, Listener, update,
  put_record, disarm, clear_idle_timer, end_downstream, reconcile_idle_of, reconcile_idle_timer,
  reap_worker_channel, broadcast, write_client_event_frame, push_client_event, write_liveness_frame,
  reconcile_needs_input, notify_idle, fire_idle_event, evict, decide_eviction, consider_eviction,
  same_response, is_current_record,
}
use ccctl.Server.Worker.Handlers.{fresh_record, add_channel, register, lose_downstream}
use ccctl.Server.Worker.Timers.{
  IsOwned, clear_idle_timer-IsOwned, end_downstream-IsOwned, schedule_eviction-IsOwned,
  arm_idle_timer-IsOwned, put_record-IsOwned, SameChannels, SameChannels-IsOwned,
}

pub reconcile_idle_timer-IsOwned :
    (s : WorkerChannelState) (id : String) (session : Session)
    → IsOwned s
    → IsOwned (reconcile_idle_timer s id session)
unfolding reconcile_idle_timer
reconcile_idle_timer-IsOwned s id session o = elim (Option-cases (get id s.worker_channels)) [
  | inl e ↦ rw (e, reconcile_idle_timer) o
  | inr (ref, e) ↦
      rw (e, reconcile_idle_timer) (by_activity ref (o.channel_known id ref e) session.activity)
]
  where
    by_activity :
        (ref : ℕ)
        → ref < s.next_ref
        → (a : SessionActivity) → IsOwned (reconcile_idle_of s id ref a)
    by_activity ref k is_idle = arm_idle_timer-IsOwned s id ref k o
    by_activity ref k is_running = clear_idle_timer-IsOwned s ref o
    by_activity ref k (awaits d) = clear_idle_timer-IsOwned s ref o

pub reap-IsOwned :
    (s : WorkerChannelState) (id : String) → IsOwned s → IsOwned (reap_worker_channel s id)
unfolding reap_worker_channel
reap-IsOwned s id o = elim (Option-cases (get id s.worker_channels)) [
  | inl e ↦ rw (e, reap_worker_channel) o
  | inr (ref, e) ↦
      rw (e, reap_worker_channel) (forget (end_downstream s ref) (end_downstream-IsOwned s ref o))
]
  where
    forget :
        (t : WorkerChannelState)
        → IsOwned t
        → IsOwned (record t { worker_channels = delete id t.worker_channels })
    forget t p = record {
      owner = p.owner;
      exclusive = p.exclusive;
      listening = p.listening;
      task_known = p.task_known;
      channel_known =
          λ j r e. ground (arith, get-delete id j t.worker_channels, p.channel_known j r);
      listener_known = p.listener_known;
    }

add_channel-IsOwned :
    (s : WorkerChannelState) (id : String) (prev : Option WorkerChannelRecord)
    → IsOwned s
    → IsOwned (add_channel s id (fresh_record prev))
add_channel-IsOwned s id prev o = record {
  owner = λ t task e. ground (arith, o.owner t task, o.task_known t task);
  exclusive = λ r. ground (arith, o.exclusive r);
  listening = λ res l e d. ground (arith, o.listening res l, o.listener_known res l);
  task_known = λ t task e. ground (arith, o.task_known t task);
  channel_known =
      λ j r e. ground (arith, get-set id j s.next_ref s.worker_channels, o.channel_known j r);
  listener_known = λ res l e. ground (arith, o.listener_known res l);
}

pub register-IsOwned : (s : WorkerChannelState) (id : String) → IsOwned s → IsOwned (register s id)
unfolding register
register-IsOwned s id o = elim (Option-cases (get id s.worker_channels)) [
  | inl e ↦ rw (e, register) (add_channel-IsOwned s id none o)
  | inr (ref, e) ↦
      rw (e, register)
        (add_channel-IsOwned (end_downstream s ref) id (some (s.heap ref))
          (end_downstream-IsOwned s ref o))
]

module _ (env : Environment) where
  pub needs_input-SameChannels :
      (s : WorkerChannelState) (id : String) (prev next : Session) (now : ℕ)
      → SameChannels s (reconcile_needs_input env s id prev next now)
  unfolding reconcile_needs_input broadcast
  needs_input-SameChannels s id prev next now = record {
    heap = ground arith;
    armed = ground arith;
    listeners = ground arith;
    channels = ground arith;
    refs = ground arith;
  }

  notify_idle-SameChannels :
      (s : WorkerChannelState) (id : String) (ref now : ℕ)
      → SameChannels s (notify_idle env s id ref now)
  unfolding notify_idle broadcast
  notify_idle-SameChannels s id ref now = record {
    heap = ground arith;
    armed = ground arith;
    listeners = ground arith;
    channels = ground arith;
    refs = ground arith;
  }

  write_frame-IsOwned :
      (s : WorkerChannelState) (ref : ℕ) (payload : Json)
      → IsOwned s
      → IsOwned (write_client_event_frame env s ref payload)
  unfolding write_client_event_frame
  write_frame-IsOwned s ref payload o = elim (Option-cases (s.heap ref).downstream) [
    | inl e ↦ rw (e, write_client_event_frame) o
    | inr (res, e) ↦
        rw (e, write_client_event_frame)
          (put_record-IsOwned s ref (record (s.heap ref) { next_seq = (s.heap ref).next_seq + 1 })
            (record {
              downstream = refl;
              liveness_timer = refl;
              eviction_timer = refl;
              idle_timer = refl;
            })
            o)
  ]

  pub push-IsOwned :
      (s : WorkerChannelState) (id : String) (payload : Json) (t : WorkerChannelState)
      → push_client_event env s id payload ≡ some t
      → IsOwned s
      → IsOwned t
  unfolding push_client_event
  push-IsOwned s id payload t e o = elim (Option-cases (get id s.worker_channels)) [
    | inl n ↦ absurd (let no = rw (n, push_client_event) at e in cc no)
    | inr (ref, n) ↦ elim (Option-cases (s.heap ref).downstream) [
      | inl d ↦ absurd (let no = rw (d) at (rw (n, push_client_event) at e) in cc no)
      | inr (res, d) ↦ subst IsOwned (unsome (rw (d) at (rw (n, push_client_event) at e))) (
          write_frame-IsOwned (clear_idle_timer s ref) ref payload
            (clear_idle_timer-IsOwned s ref o))
    ]
  ]

  pub write_liveness-IsOwned :
      (s : WorkerChannelState) (ref res : ℕ)
      → IsOwned s
      → IsOwned (write_liveness_frame env s ref res)
  unfolding write_liveness_frame
  write_liveness-IsOwned s ref res o =
      elim (Bool-cases
        (not (same_response (s.heap ref).downstream res) || any (λ r. r == res) s.hub.wire.ended)) [
          | inl e ↦ rw (e, write_liveness_frame) o
          | inr e ↦ rw (e, write_liveness_frame) (write_frame-IsOwned s ref _ o)
        ]

  pub evict-IsOwned : (s : WorkerChannelState) (id : String) → IsOwned s → IsOwned (evict env s id)
  unfolding evict
  evict-IsOwned s id o =
      reap-IsOwned (record s { hub = (close_session env.stringify s.hub id).1 }) id o

  decide_eviction-IsOwned :
      (s : WorkerChannelState) (id : String) (ref now : ℕ)
      → ref < s.next_ref
      → (s.heap ref).eviction_timer ≡ none
      → IsOwned s
      → IsOwned (decide_eviction env s id ref now)
  unfolding decide_eviction
  decide_eviction-IsOwned s id ref now known quiet o =
      elim (Bool-cases (is_current_record s id ref)) [
        | inr c ↦ rw (c, decide_eviction) o
        | inl c ↦ elim (Option-cases (s.heap ref).downstream) [
          | inr (res, d) ↦ rw (c, d, decide_eviction) o
          | inl d ↦ elim (Option-cases (get id s.hub.sessions)) [
            | inl g ↦ rw (c, d, g, decide_eviction) o
            | inr (session, g) ↦
                elim (Bool-cases (is_session_stale session now env.session_eviction_grace_ms)) [
                  | inl k ↦ rw (c, d, g, k, decide_eviction) (evict-IsOwned s id o)
                  | inr k ↦
                      rw (c, d, g, k, decide_eviction)
                        (schedule_eviction-IsOwned s id ref known d quiet o)
                ]
          ]
        ]
      ]

  -- A one-shot timer that has fired is gone from the timers, and then from its record.
  abbrev fired : WorkerChannelState → ℕ → WorkerChannelState
  fired s t = record s { armed = update s.armed t none }

  pub consider_eviction-IsOwned :
      (s : WorkerChannelState) (t : ℕ) (id : String) (ref now : ℕ)
      → s.armed t ≡ some (eviction id ref)
      → IsOwned s
      → IsOwned (consider_eviction env (fired s t) id ref now)
  unfolding consider_eviction
  consider_eviction-IsOwned s t id ref now e o =
      decide_eviction-IsOwned
        (put_record (fired s t) ref (record (s.heap ref) { eviction_timer = none })) id ref now
        (o.task_known t (eviction id ref) e) (ground arith)
        (record {
          owner = λ u task h. ground (arith, o.owner u task, o.owner t (eviction id ref));
          exclusive = λ r. ground (arith, o.exclusive r);
          listening = λ res l h d. ground (arith, o.listening res l);
          task_known = λ u task h. ground (arith, o.task_known u task);
          channel_known = o.channel_known;
          listener_known = o.listener_known;
        })

  pub fire_idle-IsOwned :
      (s : WorkerChannelState) (t : ℕ) (id : String) (ref now : ℕ)
      → s.armed t ≡ some (idle id ref)
      → IsOwned s
      → IsOwned (fire_idle_event env (fired s t) id ref now)
  unfolding fire_idle_event
  fire_idle-IsOwned s t id ref now e o =
      let quiet = put_record (fired s t) ref (record (s.heap ref) { idle_timer = none }) in
      SameChannels-IsOwned quiet (notify_idle env quiet id ref now)
        (notify_idle-SameChannels quiet id ref now)
        (record {
          owner = λ u task h. ground (arith, o.owner u task, o.owner t (idle id ref));
          exclusive = λ r. ground (arith, o.exclusive r);
          listening = λ res l h d. ground (arith, o.listening res l);
          task_known = λ u task h. ground (arith, o.task_known u task);
          channel_known = o.channel_known;
          listener_known = o.listener_known;
        })

-- The state before the eviction of a lost downstream is scheduled.
abbrev lost : WorkerChannelState → Listener → WorkerChannelState
lost s l = record s {
  armed = update s.armed l.timer none;
  heap = update s.heap l.ref (record (s.heap l.ref) { downstream = none; liveness_timer = none });
}

lost-IsOwned :
    (s : WorkerChannelState) (res : ℕ) (l : Listener)
    → s.listeners res ≡ some l
    → (s.heap l.ref).downstream ≡ some res
    → IsOwned s
    → IsOwned (lost s l)
lost-IsOwned s res l e d o = record {
  owner = λ t task h. ground (arith, o.owner t task, o.listening res l);
  exclusive = λ r. ground (arith, o.exclusive r);
  listening = λ res' l' h d'. ground (arith, o.listening res' l');
  task_known = λ t task h. ground (arith, o.task_known t task);
  channel_known = o.channel_known;
  listener_known = o.listener_known;
}

disarm-IsOwned :
    (s : WorkerChannelState) (t : ℕ)
    → IsOwned s
    → IsOwned (record s { armed = update s.armed t none })
disarm-IsOwned s t o = record {
  owner = λ u task h. ground (arith, o.owner u task);
  exclusive = o.exclusive;
  listening = o.listening;
  task_known = λ u task h. ground (arith, o.task_known u task);
  channel_known = o.channel_known;
  listener_known = o.listener_known;
}

pub lose_downstream-IsOwned :
    (s : WorkerChannelState) (res : ℕ) (l : Listener)
    → s.listeners res ≡ some l
    → IsOwned s
    → IsOwned (lose_downstream s res l)
unfolding lose_downstream disarm
lose_downstream-IsOwned s res l e o =
    elim (Bool-cases (same_response (s.heap l.ref).downstream res)) [
      | inr k ↦ rw (k, lose_downstream) (disarm-IsOwned s l.timer o)
      | inl k ↦
          let d : (s.heap l.ref).downstream ≡ some res = ground arith in
          rw (k, lose_downstream)
            (schedule_eviction-IsOwned (lost s l) l.session_id l.ref (o.listener_known res l e)
              (ground arith) (ground (arith, o.exclusive l.ref)) (lost-IsOwned s res l e d o))
    ]
