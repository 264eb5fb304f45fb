-- ===== src/Server/Unread/Order.antt =====
-- The order in which packages/server/src/unread-queue.ts replays a session's events.
use native.Mathlib.Omega.{arith}
use mathlib.Core.List.{Perm}
use mathlib.Core.List.Perm
use ccctl.Base.{ℕ, ◌≤◌, inl, inr, String, List, [], ◌∷◌, leb, str_eq, keep, Bool-cases, All}
use ccctl.Server.Unread.{UnreadEntry, insert_by_event, sort_by_event, reconcile_unread}

-- By event id, the smallest first.
abbrev pub Ascending : List UnreadEntry → Type 0
Ascending [] = Unit
Ascending (e ∷ es) = All (λ x. e.event_id ≤ x.event_id) es × Ascending es

All-insert :
    (n : ℕ) (e : UnreadEntry) (es : List UnreadEntry)
    → n ≤ e.event_id
    → All (λ x. n ≤ x.event_id) es
    → All (λ x. n ≤ x.event_id) (insert_by_event e es)
unfolding insert_by_event
All-insert n e [] h a = (h, tt)
All-insert n e (x ∷ xs) h a = ground (arith, All-insert n e xs h a.1)

All-weaken :
    (m n : ℕ) (es : List UnreadEntry)
    → m ≤ n
    → All (λ x. n ≤ x.event_id) es
    → All (λ x. m ≤ x.event_id) es
All-weaken m n [] h a = tt
All-weaken m n (e ∷ es) h a = (omega arith, All-weaken m n es h a.1)

insert-Ascending :
    (e : UnreadEntry) (es : List UnreadEntry) → Ascending es → Ascending (insert_by_event e es)
unfolding insert_by_event
insert-Ascending e [] a = (tt, tt)
insert-Ascending e (x ∷ xs) a = elim (Bool-cases (leb e.event_id x.event_id)) [
  | inl k ↦
      let le : e.event_id ≤ x.event_id = ground arith in
      rw k ((le, All-weaken e.event_id x.event_id xs le a.0), a)
  | inr k ↦ rw k (All-insert x.event_id e xs (ground arith) a.0, insert-Ascending e xs a.1)
]

insert-Perm : (e : UnreadEntry) (es : List UnreadEntry) → Perm (insert_by_event e es) (e ∷ es)
unfolding insert_by_event
insert-Perm e [] = Perm.refl (e ∷ [])
insert-Perm e (x ∷ xs) = elim (Bool-cases (leb e.event_id x.event_id)) [
  | inl k ↦ rw k (Perm.refl (e ∷ x ∷ xs))
  | inr k ↦ rw k (Perm.trans (Perm.cons x (insert-Perm e xs)) (Perm.swap e x xs))
]

sort-Ascending : (es : List UnreadEntry) → Ascending (sort_by_event es)
unfolding sort_by_event
sort-Ascending [] = tt
sort-Ascending (e ∷ es) = insert-Ascending e _ (sort-Ascending es)

sort-Perm : (es : List UnreadEntry) → Perm (sort_by_event es) es
unfolding sort_by_event
sort-Perm [] = Perm.refl []
sort-Perm (e ∷ es) = Perm.trans (insert-Perm e _) (Perm.cons e (sort-Perm es))

-- A reconnecting client is sent the session's own entries of the queue, each as often as it stands there
-- and no other, in the order of their event ids.
pub reconcile_unread-Ascending :
    (unread : List UnreadEntry) (s : String)
    → Ascending (reconcile_unread unread s)
      × Perm (reconcile_unread unread s) (keep (λ e. str_eq e.session_id s) unread)
unfolding reconcile_unread
reconcile_unread-Ascending unread s =
    let own = keep (λ e. str_eq e.session_id s) unread in (sort-Ascending own, sort-Perm own)
