-- ===== src/Server/Work/Queue.antt =====
-- Items that are queued and taken in packages/server/src/environments-bridge.ts.
use native.Mathlib.Omega.{arith}
use mathlib.Core.List.{append_assoc, append-nil}
use ccctl.Base.{
  ◌≡◌, ◌⊎◌, refl, ap, subst, sym, ◌∙◌, inl, inr, String, Bool, true, false, List, [], ◌∷◌, ◌++◌,
  some, All, str_eq, eq_iff, if◌then◌else◌, Bool-cases, Option-cases,
}
use ccctl.Base.Dict.{get, get-set}
use ccctl.Base.Members.{All-map}
use ccctl.Server.Bridge.{WorkItem}
use ccctl.Server.Work.{
  EnvironmentRecord, WorkState, put_environment, is_response_closed, write_item, without, take_item,
  poll, flush_waiters, enqueue_work,
}
use ccctl.Server.Work.Steps.{
  delivered_to, IsServed, delivered_to-append, All-keep, Grows, kept-IsServed, facts,
  waiters-IsServed, flush-cases, closing,
}

-- An item is handed to a response, the first of what waited and came.
pub write_item-IsServed :
    (id : String) (a : List WorkItem) (s t : WorkState) (j : String) (env next : EnvironmentRecord)
    (item : WorkItem)
    → get j s.environments ≡ some env
    → get id t.environments ≡ (if str_eq j id then some next else get id s.environments)
    → t.delivered ≡ s.delivered ++ (j, item) ∷ []
    → Grows s t
    → (b : List WorkItem) → item ∷ next.queue ≡ env.queue ++ b
    → ((env.queue ≡ []) ⊎ All (λ res. is_response_closed s res ≡ true) env.waiters
        → (next.queue ≡ []) ⊎ All (λ res. is_response_closed t res ≡ true) next.waiters)
    → IsServed id a s
    → IsServed id (a ++ (if str_eq j id then b else [])) t
write_item-IsServed id a s t j env next item g e d grows b same awake o =
    elim (Bool-cases (str_eq j id)) [
      | inr k ↦
          rw (k, append-nil a)
            (kept-IsServed id a s t (rw k at e)
              (rw (d, delivered_to-append id s.delivered j item, k) (append-nil _)) grows o)
      | inl k ↦
          let (order, old) =
            facts id a s env (subst (λ i. get i s.environments ≡ some env) ((eq_iff j id).0 k) g)
              o in
          rw k (record {
            environment = next;
            present = rw k at e;
            in_order =
                rw (d, delivered_to-append id s.delivered j item, k)
                  (append_assoc (delivered_to id s.delivered) (item ∷ []) next.queue
                    ∙ (ap (λ q. delivered_to id s.delivered ++ q) same
                        ∙ (sym (append_assoc (delivered_to id s.delivered) env.queue b)
                            ∙ ap (λ q. q ++ b) order)));
            awake = awake old;
          })
    ]

pub nothing_more : (a : List WorkItem) (b : Bool) → a ++ (if b then [] else []) ≡ a
nothing_more a true = append-nil a
nothing_more a false = append-nil a

pub poll-IsServed :
    (id : String) (a : List WorkItem) (s : WorkState) (j : String) (env : EnvironmentRecord)
    (queue : List WorkItem)
    → get j s.environments ≡ some env
    → env.queue ≡ queue
    → IsServed id a s
    → IsServed id a (poll s j env queue).1
poll-IsServed id a s j env [] g q o =
    waiters-IsServed id a s _ j env (record env { waiters = env.waiters ++ s.next_response ∷ [] }) g
      refl refl (λ r h. h) refl (λ old. inl q) o
poll-IsServed id a s j env (item ∷ rest) g q o =
    subst (λ l. IsServed id l (poll s j env (item ∷ rest)).1) (nothing_more a (str_eq j id))
      (write_item-IsServed id a s (poll s j env (item ∷ rest)).1 j env (take_item env rest) item g
        (get-set j id (take_item env rest) s.environments) refl (closing s s.next_response) []
        (sym (append-nil _ ∙ q))
        (λ old. elim old [
          | inl n ↦ absurd (let no = q in cc (n, no))
          | inr all ↦ inr (All-map _ _ env.waiters (closing s s.next_response) all)
        ])
        o)

-- The item is put in the queue.
pub push-IsServed :
    (id : String) (a : List WorkItem) (s : WorkState) (j : String) (env : EnvironmentRecord)
    (item : WorkItem)
    → get j s.environments ≡ some env
    → All (λ res. is_response_closed s res ≡ true) env.waiters
    → IsServed id a s
    → IsServed id
        (a ++ (if str_eq j id then item ∷ [] else []))
        (put_environment s j (take_item env (env.queue ++ item ∷ [])))
push-IsServed id a s j env item g all o =
    let next = take_item env (env.queue ++ item ∷ []) in
    elim (Bool-cases (str_eq j id)) [
      | inr k ↦
          rw (k, append-nil a)
            (kept-IsServed id a s (put_environment s j next)
              (rw (get-set j id next s.environments, k) refl) refl (λ r h. h) o)
      | inl k ↦
          let (order, old) =
            facts id a s env (subst (λ i. get i s.environments ≡ some env) ((eq_iff j id).0 k) g)
              o in
          rw k (record {
            environment = next;
            present = rw (get-set j id next s.environments, k) refl;
            in_order =
                sym (append_assoc (delivered_to id s.delivered) env.queue (item ∷ []))
                ∙ ap (λ q. q ++ item ∷ []) order;
            awake = inr all;
          })
    ]

pub not_nil : (xs : List WorkItem) (x : WorkItem) → xs ++ x ∷ [] ≡ [] → ⊥
not_nil [] x e = cc
not_nil (y ∷ ys) x e = cc

pub only :
    (xs : List WorkItem) (x y : WorkItem) (ys : List WorkItem)
    → xs ≡ []
    → xs ++ x ∷ [] ≡ y ∷ ys
    → ys ≡ []
only [] x y ys n e = cc
only (z ∷ zs) x y ys n e = absurd (cc)

pub flush-IsServed :
    (id : String) (a : List WorkItem) (s : WorkState) (j : String) (env : EnvironmentRecord)
    (item : WorkItem) (queue : List WorkItem)
    → get j s.environments ≡ some env
    → env.queue ++ item ∷ [] ≡ queue
    → IsServed id a s
    → let pushed = take_item env (env.queue ++ item ∷ []) in
      IsServed id
        (a ++ (if str_eq j id then item ∷ [] else []))
        (flush_waiters (put_environment s j pushed) j pushed queue env.waiters)
unfolding flush_waiters
flush-IsServed id a s j env item [] g q o = absurd (not_nil env.queue item q)
flush-IsServed id a s j env item (head ∷ rest) g q o =
    let pushed = take_item env (env.queue ++ item ∷ []) in
    let queued = put_environment s j pushed in
    elim (flush-cases queued j pushed head rest env.waiters) [
      | inl (e, all) ↦ subst (IsServed id _) (sym e) (push-IsServed id a s j env item g all o)
      | inr (res, e) ↦
          let next = take_item (without res pushed) rest in
          subst (IsServed id _) (sym e) (
            write_item-IsServed id a s (put_environment (write_item queued j res head) j next) j env
              next head g
              (ground
                (arith, get-set j id next queued.environments, get-set j id pushed s.environments))
              refl (closing s res) (item ∷ []) (sym q)
              (λ old. elim old [
                | inl n ↦ inl (only env.queue item head rest n q)
                | inr all ↦
                    inr (All-keep _ _ env.waiters (All-map _ _ env.waiters (closing s res) all))
              ])
              o)
    ]

pub enqueue_work-IsServed :
    (id : String) (a : List WorkItem) (s : WorkState) (j : String) (item : WorkItem)
    → IsServed id a s
    → IsServed id (a ++ (if str_eq j id then item ∷ [] else [])) (enqueue_work s j item).1
unfolding enqueue_work
enqueue_work-IsServed id a s j item o = elim (Option-cases (get j s.environments)) [
  | inr (env, g) ↦ rw (g, enqueue_work) (flush-IsServed id a s j env item _ g refl o)
  | inl g ↦ elim (Bool-cases (str_eq j id)) [
    | inr k ↦ rw (g, k, append-nil a, enqueue_work) o
    | inl k ↦
        let there : get j s.environments ≡ some o.environment =
          subst (λ i. get i s.environments ≡ some o.environment) (sym ((eq_iff j id).0 k))
            o.present in
        absurd (cc (g, there))
  ]
]
