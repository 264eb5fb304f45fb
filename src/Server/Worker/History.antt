-- ===== src/Server/Worker/History.antt =====
-- The life of the channels of packages/server/src/worker-channel.ts: requests, timers that fire and streams
-- that are lost, in any order.
use native.Mathlib.Omega.{arith}
use ccctl.Base.{
  ℕ, ◌≡◌, inl, inr, String, List, [], ◌∷◌, Option, none, some, Option-cases, Bool-cases, str_eq,
}
use ccctl.Base.Dict.{get, has, values}
use ccctl.Core.Json.{Json}
use ccctl.Server.Close.{SessionCloseState}
use ccctl.Server.Worker.{
  Environment, WorkerChannelState, Task, liveness, eviction, idle, update, put_record,
  reap_worker_channel, close_worker_channels, end_downstream, push_client_event,
  write_liveness_frame, fire_idle_event, consider_eviction,
}
use ccctl.Server.Worker.Handoff.{Disk}
use ccctl.Server.Worker.Handlers.{
  Body, handle_worker_register, handle_worker_events_stream, lose_downstream, rejects_registering,
  handle_worker_heartbeat,
}
use ccctl.Server.Worker.Status.{handle_worker_events, handle_worker_status}
use ccctl.Server.Worker.Timers.{IsOwned, end_downstream-IsOwned, SameChannels-IsOwned}
use ccctl.Server.Worker.Owned.{
  register-IsOwned, lose_downstream-IsOwned, push-IsOwned, write_liveness-IsOwned,
  consider_eviction-IsOwned, fire_idle-IsOwned, reap-IsOwned,
}
use ccctl.Server.Worker.Requests.{
  open_stream-IsOwned, handle_worker_events-IsOwned, handle_worker_status-IsOwned,
}

-- `hub` is what any other part of the server makes of the sessions, the streams and the enrichments.
pub data Step : Type 0 where
  registers : (method id : String) → Step
  opens : (method id : String) → Step
  loses : (res : ℕ) → Step
  fires : (timer now : ℕ) → Step
  reports : (id : String) → Body → (now : ℕ) → Step
  puts_status : (id : String) → Body → (now : ℕ) → Step
  beats : (method id : String) (now : ℕ) → Step
  pushes : (id : String) → Json → Step
  reaps : (id : String) → Step
  shuts_down : Step
  others : (hub : SessionCloseState) → Step

abbrev pub forget_timer : WorkerChannelState → ℕ → WorkerChannelState
forget_timer s t = record s { armed = update s.armed t none }

abbrev pub forget_listener : WorkerChannelState → ℕ → WorkerChannelState
forget_listener s res = record s { listeners = update s.listeners res none }

module _ (env : Environment) (parse : String → Option Json) (disk : ℕ → ℕ → Disk) where
  -- A timer that fires: an interval stays, a timeout is over.
  abbrev pub fire : WorkerChannelState → ℕ → ℕ → Task → WorkerChannelState
  fire s t now (liveness ref res) = write_liveness_frame env s ref res
  fire s t now (eviction id ref) = consider_eviction env (forget_timer s t) id ref now
  fire s t now (idle id ref) = fire_idle_event env (forget_timer s t) id ref now

  unfoldable pub step : WorkerChannelState → Step → WorkerChannelState
  unfolding handle_worker_register handle_worker_events_stream lose_downstream write_liveness_frame
      consider_eviction fire_idle_event handle_worker_events handle_worker_status
      handle_worker_heartbeat push_client_event reap_worker_channel close_worker_channels
  step s (registers method id) = (handle_worker_register method s id).1
  step s (opens method id) = (handle_worker_events_stream method s id).1
  step s (loses res) = elim (s.listeners res) [
    | none ↦ s
    | some l ↦ forget_listener (lose_downstream s res l) res
  ]
  step s (fires t now) = elim (s.armed t) [ none ↦ s | some task ↦ fire s t now task ]
  step s (reports id body now) = (handle_worker_events env parse disk s id body now).1
  step s (puts_status id body now) = (handle_worker_status env parse disk s id body now).1
  step s (beats method id now) = (handle_worker_heartbeat method s id now).1
  step s (pushes id payload) = elim (push_client_event env s id payload) [ none ↦ s | some t ↦ t ]
  step s (reaps id) = reap_worker_channel s id
  step s shuts_down = close_worker_channels (values s.worker_channels) s
  step s (others hub) = record s { hub = hub }

  unfoldable pub run : WorkerChannelState → List Step → WorkerChannelState
  unfolding step
  run s [] = s
  run s (x ∷ xs) = run (step s x) xs

handle_worker_register-IsOwned :
    (method : String) (s : WorkerChannelState) (id : String)
    → IsOwned s
    → IsOwned (handle_worker_register method s id).1
unfolding handle_worker_register
handle_worker_register-IsOwned method s id o = elim (Bool-cases (str_eq method "POST")) [
  | inr k ↦ rw (k, handle_worker_register) o
  | inl k ↦ elim (Option-cases (get id s.hub.sessions)) [
    | inl g ↦ rw (k, g, handle_worker_register) o
    | inr (session, g) ↦ elim (Bool-cases (rejects_registering session)) [
      | inl b ↦ rw (k, g, b, handle_worker_register) o
      | inr b ↦ rw (k, g, b, handle_worker_register) (register-IsOwned s id o)
    ]
  ]
]

stream-IsOwned :
    (method : String) (s : WorkerChannelState) (id : String)
    → IsOwned s
    → IsOwned (handle_worker_events_stream method s id).1
unfolding handle_worker_events_stream
stream-IsOwned method s id o = elim (Bool-cases (str_eq method "GET")) [
  | inr k ↦ rw (k, handle_worker_events_stream) o
  | inl k ↦ elim (Bool-cases (has id s.hub.sessions)) [
    | inr b ↦ rw (k, b, handle_worker_events_stream) o
    | inl b ↦ elim (Option-cases (get id s.worker_channels)) [
      | inl g ↦ rw (k, b, g, handle_worker_events_stream) o
      | inr (ref, g) ↦
          rw (k, b, g, handle_worker_events_stream)
            (open_stream-IsOwned s id ref (o.channel_known id ref g) o)
    ]
  ]
]

heartbeat-IsOwned :
    (method : String) (s : WorkerChannelState) (id : String) (now : ℕ)
    → IsOwned s
    → IsOwned (handle_worker_heartbeat method s id now).1
unfolding handle_worker_heartbeat
heartbeat-IsOwned method s id now o =
    SameChannels-IsOwned s (handle_worker_heartbeat method s id now).1
      (record {
        heap = ground arith;
        armed = ground arith;
        listeners = ground arith;
        channels = ground arith;
        refs = ground arith;
      })
      o

drop-IsOwned :
    (s : WorkerChannelState) (ref : ℕ)
    → IsOwned s
    → IsOwned (put_record s ref (record (s.heap ref) { downstream = none }))
drop-IsOwned s ref o = record {
  owner = λ t task e. ground (arith, o.owner t task);
  exclusive = λ r. ground (arith, o.exclusive r);
  listening = λ res l e d. ground (arith, o.listening res l);
  task_known = o.task_known;
  channel_known = o.channel_known;
  listener_known = o.listener_known;
}

close-IsOwned :
    (refs : List ℕ) (s : WorkerChannelState) → IsOwned s → IsOwned (close_worker_channels refs s)
unfolding close_worker_channels
close-IsOwned [] s o = o
close-IsOwned (ref ∷ refs) s o =
    close-IsOwned refs _ (drop-IsOwned (end_downstream s ref) ref (end_downstream-IsOwned s ref o))

forget_listener-IsOwned :
    (s : WorkerChannelState) (res : ℕ) → IsOwned s → IsOwned (forget_listener s res)
forget_listener-IsOwned s res o = record {
  owner = o.owner;
  exclusive = o.exclusive;
  listening = λ r l e d. ground (arith, o.listening r l);
  task_known = o.task_known;
  channel_known = o.channel_known;
  listener_known = λ r l e. ground (arith, o.listener_known r l);
}

module _ (env : Environment) (parse : String → Option Json) (disk : ℕ → ℕ → Disk) where
  fire-IsOwned :
      (s : WorkerChannelState) (t now : ℕ) (task : Task)
      → s.armed t ≡ some task
      → IsOwned s
      → IsOwned (fire env parse disk s t now task)
  fire-IsOwned s t now (liveness ref res) e o = write_liveness-IsOwned env s ref res o
  fire-IsOwned s t now (eviction id ref) e o = consider_eviction-IsOwned env s t id ref now e o
  fire-IsOwned s t now (idle id ref) e o = fire_idle-IsOwned env s t id ref now e o

  step-IsOwned : (s : WorkerChannelState) (x : Step) → IsOwned s → IsOwned (step env parse disk s x)
  unfolding step
  step-IsOwned s (registers method id) o = handle_worker_register-IsOwned method s id o
  step-IsOwned s (opens method id) o = stream-IsOwned method s id o
  step-IsOwned s (loses res) o = elim (Option-cases (s.listeners res)) [
    | inl e ↦ rw (e, step) o
    | inr (l, e) ↦
        rw (e, step)
          (forget_listener-IsOwned (lose_downstream s res l) res
            (lose_downstream-IsOwned s res l e o))
  ]
  step-IsOwned s (fires t now) o = elim (Option-cases (s.armed t)) [
    | inl e ↦ rw (e, step) o
    | inr (task, e) ↦ rw (e, step) (fire-IsOwned s t now task e o)
  ]
  step-IsOwned s (reports id body now) o =
      handle_worker_events-IsOwned env parse disk s id body now o
  step-IsOwned s (puts_status id body now) o =
      handle_worker_status-IsOwned env parse disk s id body now o
  step-IsOwned s (beats method id now) o = heartbeat-IsOwned method s id now o
  step-IsOwned s (pushes id payload) o = elim (Option-cases (push_client_event env s id payload)) [
    | inl e ↦ rw (e, step) o
    | inr (t, e) ↦ rw (e, step) (push-IsOwned env s id payload t e o)
  ]
  step-IsOwned s (reaps id) o = reap-IsOwned s id o
  step-IsOwned s shuts_down o = close-IsOwned (values s.worker_channels) s o
  step-IsOwned s (others hub) o = o

  -- Whatever requests, firing timers, lost streams, pushes, reaps and shutdowns come, in any order, and whatever
  -- the rest of the server does to the sessions and streams between: if the timers are in hand at the start they
  -- are so at the end. That is, every armed timer is the one that its record holds for its task, so that no
  -- timer is left behind or armed twice; no record has both a stream and a timer of the grace; and the listener of
  -- an open stream knows that stream's timer.
  pub run-IsOwned :
      (xs : List Step) (s : WorkerChannelState) → IsOwned s → IsOwned (run env parse disk s xs)
  unfolding run
  run-IsOwned [] s o = o
  run-IsOwned (x ∷ xs) s o = run-IsOwned xs (step env parse disk s x) (step-IsOwned s x o)
