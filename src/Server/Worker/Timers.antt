-- ===== src/Server/Worker/Timers.antt =====
-- Which timers of packages/server/src/worker-channel.ts run: each is the one that its record holds, so none is
-- left behind. Kept by the operations on one record.
use native.Mathlib.Omega.{arith}
use ccctl.Base.{ℕ, ◌<◌, ◌≡◌, ◌≢◌, ◌⊎◌, String, Option, none, some}
use ccctl.Base.Dict.{Dict, get}
use ccctl.Server.Worker.{
  WorkerChannelRecord, WorkerChannelState, Task, liveness, eviction, idle, Listener, put_record,
  disarm, clear_liveness_timer, clear_eviction_timer, clear_idle_timer, end_response,
  end_downstream, schedule_eviction, arm_idle_timer,
}

abbrev pub ref_of : Task → ℕ
ref_of (liveness ref res) = ref
ref_of (eviction session_id ref) = ref
ref_of (idle session_id ref) = ref

-- The timer that a record holds for a task.
abbrev pub held : WorkerChannelRecord → Task → Option ℕ
held r (liveness ref res) = r.liveness_timer
held r (eviction session_id ref) = r.eviction_timer
held r (idle session_id ref) = r.idle_timer

-- It is stated of the parts that it is about, so that a change of the others keeps it as it is.
pub record IsOwnedOf (heap : ℕ → WorkerChannelRecord) (armed : ℕ → Option Task)
    (listeners : ℕ → Option Listener) (channels : Dict ℕ) (next_ref : ℕ) : Type 0 where
  pub owner : (t : ℕ) (task : Task) → armed t ≡ some task → held (heap (ref_of task)) task ≡ some t
  pub exclusive : (r : ℕ) → ((heap r).downstream ≡ none) ⊎ ((heap r).eviction_timer ≡ none)
  pub listening :
      (res : ℕ) (l : Listener)
      → listeners res ≡ some l
      → (heap l.ref).downstream ≡ some res
      → ((heap l.ref).liveness_timer ≡ none) ⊎ ((heap l.ref).liveness_timer ≡ some l.timer)
  pub task_known : (t : ℕ) (task : Task) → armed t ≡ some task → ref_of task < next_ref
  pub channel_known : (id : String) (r : ℕ) → get id channels ≡ some r → r < next_ref
  pub listener_known : (res : ℕ) (l : Listener) → listeners res ≡ some l → l.ref < next_ref

abbrev pub IsOwned : WorkerChannelState → Type 0
IsOwned s = IsOwnedOf s.heap s.armed s.listeners s.worker_channels s.next_ref

clear_liveness_timer-IsOwned :
    (s : WorkerChannelState) (ref : ℕ) → IsOwned s → IsOwned (clear_liveness_timer s ref)
unfolding clear_liveness_timer disarm
clear_liveness_timer-IsOwned s ref o = record {
  owner = λ t task e. ground (arith, o.owner t task);
  exclusive = λ r. ground (arith, o.exclusive r);
  listening = λ res l e d. ground (arith, o.listening res l);
  task_known = λ t task e. ground (arith, o.task_known t task);
  channel_known = λ id r e. ground (arith, o.channel_known id r);
  listener_known = λ res l e. ground (arith, o.listener_known res l);
}

clear_eviction_timer-IsOwned :
    (s : WorkerChannelState) (ref : ℕ) → IsOwned s → IsOwned (clear_eviction_timer s ref)
unfolding clear_eviction_timer disarm
clear_eviction_timer-IsOwned s ref o = record {
  owner = λ t task e. ground (arith, o.owner t task);
  exclusive = λ r. ground (arith, o.exclusive r);
  listening = λ res l e d. ground (arith, o.listening res l);
  task_known = λ t task e. ground (arith, o.task_known t task);
  channel_known = λ id r e. ground (arith, o.channel_known id r);
  listener_known = λ res l e. ground (arith, o.listener_known res l);
}

pub clear_idle_timer-IsOwned :
    (s : WorkerChannelState) (ref : ℕ) → IsOwned s → IsOwned (clear_idle_timer s ref)
unfolding clear_idle_timer disarm
clear_idle_timer-IsOwned s ref o = record {
  owner = λ t task e. ground (arith, o.owner t task);
  exclusive = λ r. ground (arith, o.exclusive r);
  listening = λ res l e d. ground (arith, o.listening res l);
  task_known = λ t task e. ground (arith, o.task_known t task);
  channel_known = λ id r e. ground (arith, o.channel_known id r);
  listener_known = λ res l e. ground (arith, o.listener_known res l);
}

abbrev cleared : WorkerChannelState → ℕ → WorkerChannelState
cleared s ref = clear_idle_timer (clear_eviction_timer (clear_liveness_timer s ref) ref) ref

end_response-IsOwned :
    (s : WorkerChannelState) (res : Option ℕ) → IsOwned s → IsOwned (end_response s res)
end_response-IsOwned s none o = o
end_response-IsOwned s (some res) o = o

pub end_downstream-IsOwned :
    (s : WorkerChannelState) (ref : ℕ) → IsOwned s → IsOwned (end_downstream s ref)
unfolding end_downstream
end_downstream-IsOwned s ref o =
    end_response-IsOwned (cleared s ref) ((cleared s ref).heap ref).downstream (
      clear_idle_timer-IsOwned _ ref
        (clear_eviction_timer-IsOwned _ ref (clear_liveness_timer-IsOwned s ref o)))

-- What an ended record still says, and which of its surroundings stay.
pub record Ended (s t : WorkerChannelState) (ref : ℕ) : Type 0 where
  pub quiet :
      t.heap ref
      ≡ record (s.heap ref) { liveness_timer = none; eviction_timer = none; idle_timer = none }
  pub others : (r : ℕ) → r ≢ ref → t.heap r ≡ s.heap r
  pub channels : t.worker_channels ≡ s.worker_channels
  pub listeners : t.listeners ≡ s.listeners
  pub refs : t.next_ref ≡ s.next_ref
  pub timers : t.next_timer ≡ s.next_timer

pub end_downstream-Ended : (s : WorkerChannelState) (ref : ℕ) → Ended s (end_downstream s ref) ref
unfolding end_downstream clear_liveness_timer clear_eviction_timer clear_idle_timer disarm
end_downstream-Ended s ref = record {
  quiet = ground arith;
  others = λ r h. ground arith;
  channels = ground arith;
  listeners = ground arith;
  refs = ground arith;
  timers = ground arith;
}

pub schedule_eviction-IsOwned :
    (s : WorkerChannelState) (id : String) (ref : ℕ)
    → ref < s.next_ref
    → (s.heap ref).downstream ≡ none
    → (s.heap ref).eviction_timer ≡ none
    → IsOwned s
    → IsOwned (schedule_eviction s id ref)
unfolding schedule_eviction
schedule_eviction-IsOwned s id ref known gone quiet o = record {
  owner = λ t task e. ground (arith, o.owner t task);
  exclusive = λ r. ground (arith, o.exclusive r);
  listening = λ res l e d. ground (arith, o.listening res l);
  task_known = λ t task e. ground (arith, o.task_known t task);
  channel_known = λ id r e. ground (arith, o.channel_known id r);
  listener_known = λ res l e. ground (arith, o.listener_known res l);
}

pub arm_idle_timer-IsOwned :
    (s : WorkerChannelState) (id : String) (ref : ℕ)
    → ref < s.next_ref
    → IsOwned s
    → IsOwned (arm_idle_timer s id ref)
unfolding arm_idle_timer
arm_idle_timer-IsOwned s id ref known o = record {
  owner = λ t task e. ground (arith, o.owner t task);
  exclusive = λ r. ground (arith, o.exclusive r);
  listening = λ res l e d. ground (arith, o.listening res l);
  task_known = λ t task e. ground (arith, o.task_known t task);
  channel_known = λ id r e. ground (arith, o.channel_known id r);
  listener_known = λ res l e. ground (arith, o.listener_known res l);
}

-- Two records with one downstream and the same timers.
pub record SameTimers (r q : WorkerChannelRecord) : Type 0 where
  pub downstream : q.downstream ≡ r.downstream
  pub liveness_timer : q.liveness_timer ≡ r.liveness_timer
  pub eviction_timer : q.eviction_timer ≡ r.eviction_timer
  pub idle_timer : q.idle_timer ≡ r.idle_timer

pub put_record-IsOwned :
    (s : WorkerChannelState) (ref : ℕ) (r : WorkerChannelRecord)
    → SameTimers (s.heap ref) r
    → IsOwned s
    → IsOwned (put_record s ref r)
put_record-IsOwned s ref r same o = record {
  owner = λ t task e. ground (arith, o.owner t task);
  exclusive = λ q. ground (arith, o.exclusive q);
  listening = λ res l e d. ground (arith, o.listening res l);
  task_known = o.task_known;
  channel_known = o.channel_known;
  listener_known = o.listener_known;
}

-- The channels are as they were.
pub record SameChannels (s t : WorkerChannelState) : Type 0 where
  pub heap : t.heap ≡ s.heap
  pub armed : t.armed ≡ s.armed
  pub listeners : t.listeners ≡ s.listeners
  pub channels : t.worker_channels ≡ s.worker_channels
  pub refs : t.next_ref ≡ s.next_ref

pub SameChannels-IsOwned : (s t : WorkerChannelState) → SameChannels s t → IsOwned s → IsOwned t
SameChannels-IsOwned s t k o = rw (k.heap, k.armed, k.listeners, k.channels, k.refs) o
