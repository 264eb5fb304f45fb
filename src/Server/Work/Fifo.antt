-- ===== src/Server/Work/Fifo.antt =====
-- The work of an environment is delivered once and in order, and no poll sleeps while work waits.
use native.Mathlib.Omega.{arith}
use mathlib.Core.List.{append_assoc, append-nil}
use ccctl.Base.{
  ℕ, ◌≢◌, refl, inl, inr, String, List, [], ◌∷◌, ◌++◌, ◌==◌, any, All, str_eq, eq_iff, Bool-cases,
  Option-cases,
}
use ccctl.Base.Dict.{Dict, get, get-set}
use ccctl.Server.Bridge.{WorkItem}
use ccctl.Server.Work.{
  EnvironmentRecord, WorkState, register_environment, handle_work_poll, settle_empty, drop_waiter,
  settle_waiters, settle_environments,
}
use ccctl.Server.Work.Steps.{
  Step, registers, polls, enqueues, times_out, loses, hangs_up, shuts_down, step, run, handed,
  handed_all, Leaves, IsServed, kept-IsServed, without-IsServed, closing,
}
use ccctl.Server.Work.Queue.{poll-IsServed, enqueue_work-IsServed}

settle_empty-IsServed :
    (id : String) (a : List WorkItem) (s : WorkState) (j : String) (res : ℕ)
    → IsServed id a s
    → IsServed id a (settle_empty s j res)
unfolding settle_empty
settle_empty-IsServed id a s j res o = elim (Option-cases (get j s.environments)) [
  | inl g ↦ rw (g, settle_empty) o
  | inr (env, g) ↦ elim (Bool-cases (any (λ w. w == res) env.waiters)) [
    | inr k ↦ rw (g, k, settle_empty) o
    | inl k ↦
        rw (g, k, settle_empty) (without-IsServed id a s _ j env res g refl refl (closing s res) o)
  ]
]

drop_waiter-IsServed :
    (id : String) (a : List WorkItem) (s : WorkState) (j : String) (res : ℕ)
    → IsServed id a s
    → IsServed id a (drop_waiter s j res)
unfolding drop_waiter
drop_waiter-IsServed id a s j res o = elim (Option-cases (get j s.environments)) [
  | inl g ↦ rw (g, drop_waiter) o
  | inr (env, g) ↦
      rw (g, drop_waiter) (without-IsServed id a s _ j env res g refl refl (λ r h. h) o)
]

register_environment-IsServed :
    (id : String) (a : List WorkItem) (s : WorkState) (j : String) (max_sessions : ℕ)
    → j ≢ id
    → IsServed id a s
    → IsServed id a (register_environment s j max_sessions)
unfolding register_environment
register_environment-IsServed id a s j max_sessions apart o =
    kept-IsServed id a s (register_environment s j max_sessions)
      (ground (
        arith,
        get-set j id (record { max_sessions = max_sessions; queue = []; waiters = [] })
            s.environments,
        eq_iff j id,
      ))
      refl (λ r h. h) o

settle_waiters-IsServed :
    (id : String) (a : List WorkItem) (s : WorkState) (j : String) (waiters : List ℕ)
    → IsServed id a s
    → IsServed id a (settle_waiters s j waiters)
unfolding settle_waiters
settle_waiters-IsServed id a s j [] o = o
settle_waiters-IsServed id a s j (res ∷ more) o =
    settle_waiters-IsServed id a (settle_empty s j res) j more
      (settle_empty-IsServed id a s j res o)

settle_environments-IsServed :
    (id : String) (a : List WorkItem) (s : WorkState) (environments : Dict EnvironmentRecord)
    → IsServed id a s
    → IsServed id a (settle_environments s environments)
unfolding settle_environments
settle_environments-IsServed id a s [] o = o
settle_environments-IsServed id a s ((j, env) ∷ more) o =
    settle_environments-IsServed id a (settle_waiters s j env.waiters) more
      (settle_waiters-IsServed id a s j env.waiters o)

handle_work_poll-IsServed :
    (id : String) (a : List WorkItem) (s : WorkState) (method j : String)
    → IsServed id a s
    → IsServed id a (handle_work_poll method s j).1
unfolding handle_work_poll
handle_work_poll-IsServed id a s method j o = elim (Bool-cases (str_eq method "GET")) [
  | inr k ↦ rw (k, handle_work_poll) o
  | inl k ↦ elim (Option-cases (get j s.environments)) [
    | inl g ↦ rw (k, g, handle_work_poll) o
    | inr (env, g) ↦ rw (k, g, handle_work_poll) (poll-IsServed id a s j env env.queue g refl o)
  ]
]

step-IsServed :
    (id : String) (a : List WorkItem) (s : WorkState) (x : Step)
    → Leaves id x
    → IsServed id a s
    → IsServed id (a ++ handed id x) (step s x)
unfolding step
step-IsServed id a s (registers j n) l o =
    rw (append-nil a) (register_environment-IsServed id a s j n l o)
step-IsServed id a s (polls method j) l o =
    rw (append-nil a) (handle_work_poll-IsServed id a s method j o)
step-IsServed id a s (enqueues j item) l o = enqueue_work-IsServed id a s j item o
step-IsServed id a s (times_out j res) l o =
    rw (append-nil a) (settle_empty-IsServed id a s j res o)
step-IsServed id a s (loses res) l o =
    rw (append-nil a)
      (kept-IsServed id a s (record s { closed = res ∷ s.closed }) refl refl (closing s res) o)
step-IsServed id a s (hangs_up j res) l o = rw (append-nil a) (drop_waiter-IsServed id a s j res o)
step-IsServed id a s shuts_down l o =
    rw (append-nil a) (settle_environments-IsServed id a s s.environments o)

-- Whatever polls, timeouts, lost clients and shutdowns come between, the items that are handed to an environment
-- that is not registered anew are delivered each once and in the order they were handed over, the rest still
-- waiting in the queue in that order; and while an item waits, no open poll of the environment does.
pub run-IsServed :
    (xs : List Step) (id : String) (a : List WorkItem) (s : WorkState)
    → All (Leaves id) xs
    → IsServed id a s
    → IsServed id (a ++ handed_all id xs) (run s xs)
unfolding run
run-IsServed [] id a s l o = rw (append-nil a) o
run-IsServed (x ∷ xs) id a s (l, more) o =
    rw (← append_assoc a (handed id x) (handed_all id xs))
      (run-IsServed xs id (a ++ handed id x) (step s x) more (step-IsServed id a s x l o))
