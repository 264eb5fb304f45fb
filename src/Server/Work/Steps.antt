-- ===== src/Server/Work/Steps.antt =====
-- The life of the queues of packages/server/src/environments-bridge.ts, and what is known of one of them.
use native.Mathlib.Omega.{arith}
use ccctl.Base.{
  ℕ, ◌≡◌, ◌≢◌, ◌⊎◌, refl, ap, subst, sym, ◌∙◌, inl, inr, String, Bool, true, List, [], ◌∷◌, ◌++◌,
  some, keep, All, str_eq, eq_iff, if◌then◌else◌, Bool-cases,
}
use ccctl.Base.Dict.{get, set, get-set}
use ccctl.Base.Members.{All-map}
use ccctl.Core.Json.{unsome}
use ccctl.Server.Bridge.{WorkItem}
use ccctl.Server.Work.{
  EnvironmentRecord, WorkState, put_environment, register_environment, is_response_closed,
  write_item, write_empty, without, take_item, handle_work_poll, flush_waiters, enqueue_work,
  settle_empty, drop_waiter, settle_environments, settle_pending_polls,
}

pub data Step : Type 0 where
  registers : (id : String) (max_sessions : ℕ) → Step
  polls : (method id : String) → Step
  enqueues : (id : String) → WorkItem → Step
  times_out : (id : String) (res : ℕ) → Step
  loses : (res : ℕ) → Step
  hangs_up : (id : String) (res : ℕ) → Step
  shuts_down : Step

unfoldable pub step : WorkState → Step → WorkState
unfolding register_environment handle_work_poll enqueue_work settle_empty drop_waiter
    settle_environments
step s (registers id max_sessions) = register_environment s id max_sessions
step s (polls method id) = (handle_work_poll method s id).1
step s (enqueues id item) = (enqueue_work s id item).1
step s (times_out id res) = settle_empty s id res
step s (loses res) = record s { closed = res ∷ s.closed }
step s (hangs_up id res) = drop_waiter s id res
step s shuts_down = settle_pending_polls s

unfoldable pub run : WorkState → List Step → WorkState
unfolding step
run s [] = s
run s (x ∷ xs) = run (step s x) xs

abbrev pub delivered_to : String → List (String × WorkItem) → List WorkItem
delivered_to id [] = []
delivered_to id ((j, item) ∷ log) =
    if str_eq j id then item ∷ delivered_to id log else delivered_to id log

-- What a step hands to an environment.
abbrev pub handed : String → Step → List WorkItem
handed id (enqueues j item) = if str_eq j id then item ∷ [] else []
handed id _ = []

abbrev pub handed_all : String → List Step → List WorkItem
handed_all id [] = []
handed_all id (x ∷ xs) = handed id x ++ handed_all id xs

-- The environment is not registered anew.
abbrev pub Leaves : String → Step → Type 0
Leaves id (registers j max_sessions) = j ≢ id
Leaves id _ = Unit {0}

pub record IsServed (id : String) (handed_over : List WorkItem) (s : WorkState) : Type 0 where
  pub environment : EnvironmentRecord
  pub present : get id s.environments ≡ some environment
  pub in_order : delivered_to id s.delivered ++ environment.queue ≡ handed_over
  pub awake :
      (environment.queue ≡ []) ⊎ All (λ res. is_response_closed s res ≡ true) environment.waiters

pub delivered_to-append :
    (id : String) (log : List (String × WorkItem)) (j : String) (item : WorkItem)
    → delivered_to id (log ++ (j, item) ∷ [])
      ≡ delivered_to id log ++ (if str_eq j id then item ∷ [] else [])
delivered_to-append id [] j item = ground arith
delivered_to-append id ((i, x) ∷ log) j item = ground (arith, delivered_to-append id log j item)

pub All-keep : (P : ℕ → Type 0) (p : ℕ → Bool) (xs : List ℕ) → All P xs → All P (keep p xs)
All-keep P p [] a = tt
All-keep P p (x ∷ xs) (h, a) = elim (Bool-cases (p x)) [
  | inl k ↦ rw k (h, All-keep P p xs a)
  | inr k ↦ rw k (All-keep P p xs a)
]

-- The waiters of a state stay closed in a later one.
abbrev pub Grows : WorkState → WorkState → Type 0
Grows s t = (res : ℕ) → is_response_closed s res ≡ true → is_response_closed t res ≡ true

pub kept-IsServed :
    (id : String) (a : List WorkItem) (s t : WorkState)
    → get id t.environments ≡ get id s.environments
    → delivered_to id t.delivered ≡ delivered_to id s.delivered
    → Grows s t
    → IsServed id a s
    → IsServed id a t
kept-IsServed id a s t e d g o = record {
  environment = o.environment;
  present = e ∙ o.present;
  in_order = rw d o.in_order;
  awake = elim o.awake [ inl q ↦ inl q | inr all ↦ inr (All-map _ _ o.environment.waiters g all) ];
}

-- What is known of the environment itself.
abbrev pub Facts : String → List WorkItem → WorkState → EnvironmentRecord → Type 0
Facts id a s env =
    (delivered_to id s.delivered ++ env.queue ≡ a)
    × ((env.queue ≡ []) ⊎ All (λ res. is_response_closed s res ≡ true) env.waiters)

pub facts :
    (id : String) (a : List WorkItem) (s : WorkState) (env : EnvironmentRecord)
    → get id s.environments ≡ some env
    → IsServed id a s
    → Facts id a s env
facts id a s env g o = subst (Facts id a s) (unsome (sym o.present ∙ g)) (o.in_order, o.awake)

-- A change of the waiters of an environment alone.
pub waiters-IsServed :
    (id : String) (a : List WorkItem) (s t : WorkState) (j : String) (env next : EnvironmentRecord)
    → get j s.environments ≡ some env
    → t.environments ≡ set j next s.environments
    → t.delivered ≡ s.delivered
    → Grows s t
    → next.queue ≡ env.queue
    → ((env.queue ≡ []) ⊎ All (λ res. is_response_closed s res ≡ true) env.waiters
        → (next.queue ≡ []) ⊎ All (λ res. is_response_closed t res ≡ true) next.waiters)
    → IsServed id a s
    → IsServed id a t
waiters-IsServed id a s t j env next g e d grows same awake o = elim (Bool-cases (str_eq j id)) [
  | inr k ↦
      kept-IsServed id a s t (rw (e, get-set j id next s.environments, k) refl)
        (ap (delivered_to id) d) grows o
  | inl k ↦
      let (order, old) =
        facts id a s env (subst (λ i. get i s.environments ≡ some env) ((eq_iff j id).0 k) g) o in
      record {
        environment = next;
        present = rw (e, get-set j id next s.environments, k) refl;
        in_order = rw (d, same) order;
        awake = awake old;
      }
]

pub without-IsServed :
    (id : String) (a : List WorkItem) (s t : WorkState) (j : String) (env : EnvironmentRecord)
    (res : ℕ)
    → get j s.environments ≡ some env
    → t.environments ≡ set j (without res env) s.environments
    → t.delivered ≡ s.delivered
    → Grows s t
    → IsServed id a s
    → IsServed id a t
without-IsServed id a s t j env res g e d grows =
    waiters-IsServed id a s t j env (without res env) g e d grows refl (λ old. elim old [
      | inl q ↦ inl q
      | inr all ↦ inr (All-keep _ _ env.waiters (All-map _ _ env.waiters grows all))
    ])

pub flush-cases :
    (s : WorkState) (id : String) (env : EnvironmentRecord) (item : WorkItem) (rest : List WorkItem)
    (waiters : List ℕ)
    → let t = flush_waiters s id env (item ∷ rest) waiters in
      ((t ≡ s) × All (λ res. is_response_closed s res ≡ true) waiters)
      ⊎ ((res : ℕ) × (t
            ≡ put_environment (write_item s id res item) id (take_item (without res env) rest)))
unfolding flush_waiters
flush-cases s id env item rest [] = inl (refl, tt)
flush-cases s id env item rest (res ∷ more) = elim (Bool-cases (is_response_closed s res)) [
  | inr k ↦ inr (res, rw (k, flush_waiters) refl)
  | inl k ↦ elim (flush-cases s id env item rest more) [
    | inl (e, all) ↦ inl (rw (k, flush_waiters) e, (k, all))
    | inr (r, e) ↦ inr (r, rw (k, flush_waiters) e)
  ]
]

pub closing :
    (s : WorkState) (res r : ℕ)
    → is_response_closed s r ≡ true
    → is_response_closed (write_empty s res) r ≡ true
closing s res r h = ground arith
