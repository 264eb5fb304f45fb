-- ===== src/Server/Work.antt =====
-- packages/server/src/environments-bridge.ts: the queue of work of an environment and the polls that wait for it.
-- A poll that waits is known by its response; `closed` are the responses that have ended or lost their client.
pub mod Steps
pub mod Queue
pub mod Fifo
pub mod Create
use ccctl.Base.{
  ℕ, ◌+◌, String, Bool, true, false, not, List, [], ◌∷◌, ◌++◌, Option, none, some, ◌==◌, any, keep,
  str_eq, if◌then◌else◌,
}
use ccctl.Base.Dict.{Dict, get, set, has}
use ccctl.Core.Json.{Json}
use ccctl.Server.Bridge.{WorkItem, to_work_item_wire}

pub record EnvironmentRecord : Type 0 where
  pub max_sessions : ℕ
  pub queue : List WorkItem
  pub waiters : List ℕ

pub record WorkState : Type 0 where
  pub environments : Dict EnvironmentRecord
  pub answers : List (ℕ × Option Json)
  pub delivered : List (String × WorkItem)
  pub closed : List ℕ
  pub next_response : ℕ

abbrev pub put_environment : WorkState → String → EnvironmentRecord → WorkState
put_environment s id env = record s { environments = set id env s.environments }

-- `handleEnvironmentRegister`, from the minting of the identifier on.
unfoldable pub register_environment : WorkState → String → ℕ → WorkState
register_environment s id max_sessions =
    put_environment s id (record { max_sessions = max_sessions; queue = []; waiters = [] })

abbrev pub is_response_closed : WorkState → ℕ → Bool
is_response_closed s res = any (λ r. r == res) s.closed

-- What is written to a response; an item is logged as delivered too.
abbrev pub write_item : WorkState → String → ℕ → WorkItem → WorkState
write_item s id res item = record s {
  answers = s.answers ++ (res, some (to_work_item_wire item)) ∷ [];
  delivered = s.delivered ++ (id, item) ∷ [];
  closed = res ∷ s.closed;
}

abbrev pub write_empty : WorkState → ℕ → WorkState
write_empty s res = record s { answers = s.answers ++ (res, none) ∷ []; closed = res ∷ s.closed }

abbrev pub without : ℕ → EnvironmentRecord → EnvironmentRecord
without res env = record env { waiters = keep (λ w. not (w == res)) env.waiters }

abbrev pub take_item : EnvironmentRecord → List WorkItem → EnvironmentRecord
take_item env rest = record env { queue = rest }

pub data PollReply : Type 0 where
  refused : (status : ℕ) → PollReply
  answered waiting : PollReply

-- The response is a new one.
abbrev pub poll : WorkState → String → EnvironmentRecord → List WorkItem → PollReply × WorkState
poll s id env [] = (
  waiting,
  put_environment (record s { next_response = s.next_response + 1 }) id
      (record env { waiters = env.waiters ++ s.next_response ∷ [] }),
)
poll s id env (item ∷ rest) = (
  answered,
  put_environment
      (write_item (record s { next_response = s.next_response + 1 }) id s.next_response item) id
      (take_item env rest),
)

unfoldable pub handle_work_poll : String → WorkState → String → PollReply × WorkState
handle_work_poll method s id =
    if not (str_eq method "GET") then (refused 405, s) else elim (get id s.environments) [
      | none ↦ (refused 404, s)
      | some env ↦ poll s id env env.queue
    ]

-- `deliverQueued` of the waiters in turn, until one has taken an item.
unfoldable pub flush_waiters :
    WorkState → String → EnvironmentRecord → List WorkItem → List ℕ → WorkState
flush_waiters s id env [] waiters = s
flush_waiters s id env (item ∷ rest) [] = s
flush_waiters s id env (item ∷ rest) (res ∷ more) =
    let later = flush_waiters s id env (item ∷ rest) more in
    if is_response_closed s res
    then later
    else put_environment (write_item s id res item) id (take_item (without res env) rest)

unfoldable pub enqueue_work : WorkState → String → WorkItem → Bool × WorkState
unfolding flush_waiters
enqueue_work s id item = elim (get id s.environments) [
  | none ↦ (false, s)
  | some env ↦
      let pushed = take_item env (env.queue ++ item ∷ []) in
      (true, flush_waiters (put_environment s id pushed) id pushed pushed.queue pushed.waiters)
]

-- `settleEmpty` and the timeout of a waiter: nothing, once it is settled.
unfoldable pub settle_empty : WorkState → String → ℕ → WorkState
settle_empty s id res = elim (get id s.environments) [
  | none ↦ s
  | some env ↦
      if any (λ w. w == res) env.waiters
      then put_environment (write_empty s res) id (without res env)
      else s
]

-- The request of a waiter is closed.
unfoldable pub drop_waiter : WorkState → String → ℕ → WorkState
drop_waiter s id res = elim (get id s.environments) [
  | none ↦ s
  | some env ↦ put_environment s id (without res env)
]

unfoldable pub settle_waiters : WorkState → String → List ℕ → WorkState
unfolding settle_empty
settle_waiters s id [] = s
settle_waiters s id (res ∷ more) = settle_waiters (settle_empty s id res) id more

unfoldable pub settle_environments : WorkState → Dict EnvironmentRecord → WorkState
unfolding settle_waiters
settle_environments s [] = s
settle_environments s ((id, env) ∷ more) =
    settle_environments (settle_waiters s id env.waiters) more

abbrev pub settle_pending_polls : WorkState → WorkState
settle_pending_polls s = settle_environments s s.environments

-- `handleWorkLifecycle`: an acknowledgement changes nothing.
unfoldable pub handle_work_lifecycle : String → WorkState → String → PollReply
handle_work_lifecycle method s id =
    if not (str_eq method "POST")
    then refused 405
    else if not (has id s.environments)
    then refused 404
    else answered
