-- ===== src/Server/Pending/Shared.antt =====
-- A launch that was one of several of its group is never matched by packages/server/src/pending-launch.ts, however
-- few of them are left.
use native.Mathlib.Omega.{arith}
use text.Mathlib.TextPositions.{eq_refl}
use ccctl.Base.{
  ◌<◌, ◌≡◌, sym, subst, inl, inr, ◌⊎◌, ◌↔◌, String, Bool, true, false, not, ◌&&◌, ◌||◌, List, [],
  ◌∷◌, Option, none, some, keep, length, str_eq, eq_iff, ltb, Bool-cases, All,
}
use ccctl.Base.Dict.{Dict, get, set, delete, values}
use ccctl.Core.Session.{PermissionMode}
use ccctl.Server.Pending.{
  PendingLaunch, PendingLaunchState, same_group, mode_eq, as_ambiguous, as_live,
  mark_ambiguous_group, mark_group_may_hold_live_worker, consume_pending_launch, drop_placeholder,
  take_claim, track_pending_launch, claim_pending_launch, canonical_cwd, clear_pending_launches,
}
use ccctl.Server.Pending.Marking.{Keyed, All-keep, change_where, put_all-where, set-Keyed}
use ccctl.Server.Pending.Groups.{group, IsAmbiguous, IsWellFormed}
use ccctl.Server.Pending.Preserved.{consume-pending, consume-IsWellFormed, evict-pending}
use ccctl.Server.Pending.Claims.{
  oldest-group, Step, track, claim, consume, evict, clear, step, run, step-IsWellFormed,
  run-IsWellFormed, claim-sole,
}

-- A launch of that session is ambiguous.
abbrev is_marked : String → PendingLaunch → Bool
is_marked id p = not (str_eq p.session_id id) || p.ambiguous

abbrev IsMarked : String → Dict PendingLaunch → Type 0
IsMarked id m = All (λ p. is_marked id p ≡ true) (values m)

delete-IsMarked :
    (id j : String) (m : Dict PendingLaunch) → IsMarked id m → IsMarked id (delete j m)
unfolding delete
delete-IsMarked id j [] a = tt
delete-IsMarked id j ((k, p) ∷ m) a = elim (Bool-cases (str_eq k j)) [
  | inl e ↦ rw e (delete-IsMarked id j m a.1)
  | inr e ↦ rw e (a.0, delete-IsMarked id j m a.1)
]

set-IsMarked :
    (id j : String) (q : PendingLaunch) (m : Dict PendingLaunch)
    → is_marked id q ≡ true
    → IsMarked id m
    → IsMarked id (set j q m)
unfolding set
set-IsMarked id j q [] h a = (h, tt)
set-IsMarked id j q ((k, p) ∷ m) h a = elim (Bool-cases (str_eq k j)) [
  | inl e ↦ rw e (h, a.1)
  | inr e ↦ rw e (a.0, set-IsMarked id j q m h a.1)
]

change-IsMarked :
    (id : String) (t : PendingLaunch → Bool) (f : PendingLaunch → PendingLaunch)
    → ((p : PendingLaunch) → is_marked id p ≡ true → is_marked id (f p) ≡ true)
    → (m : Dict PendingLaunch) → IsMarked id m
    → IsMarked id (change_where t f m)
change-IsMarked id t f keeps [] a = tt
change-IsMarked id t f keeps ((k, p) ∷ m) a = elim (Bool-cases (t p)) [
  | inl e ↦ rw e (keeps p a.0, change-IsMarked id t f keeps m a.1)
  | inr e ↦ rw e (a.0, change-IsMarked id t f keeps m a.1)
]

place-IsMarked :
    (id : String) (p : PendingLaunch) (m : Dict PendingLaunch)
    → str_eq p.session_id id ≡ false
    → Keyed m
    → IsMarked id m
    → IsMarked id (mark_ambiguous_group (set p.session_id p m) p.cwd p.permission_mode)
unfolding mark_ambiguous_group
place-IsMarked id p m other w a =
    let placed = set-IsMarked id p.session_id p m (ground (arith, other)) a in
    elim (Bool-cases (ltb (length (group p.cwd p.permission_mode (set p.session_id p m))) 2)) [
      | inl e ↦ rw e placed
      | inr e ↦
          rw
            (
              e,
              put_all-where (same_group p.cwd p.permission_mode) as_ambiguous (set p.session_id p m)
                  (set-Keyed p m w),
            )
            (change-IsMarked id (same_group p.cwd p.permission_mode) as_ambiguous
              (λ q h. ground arith) (set p.session_id p m) placed)
    ]

consume-IsMarked :
    (s : PendingLaunchState) (id j : String)
    → IsMarked id s.pending_launches
    → IsMarked id (consume_pending_launch s j).1.pending_launches
consume-IsMarked s id j a =
    subst (IsMarked id) (sym (consume-pending s j))
      (elim (get j s.pending_launches)
        as (λ o.
          IsMarked id
            (elim o [ none ↦ s.pending_launches | some p ↦ delete j s.pending_launches ])) [
              | none ↦ a
              | some p ↦ delete-IsMarked id j s.pending_launches a
            ])

take-IsMarked :
    (s : PendingLaunchState) (p : PendingLaunch) (cwd id : String)
    → IsWellFormed s.pending_launches
    → IsMarked id s.pending_launches
    → IsMarked id (take_claim s p cwd).1.pending_launches
unfolding take_claim drop_placeholder mark_group_may_hold_live_worker
take-IsMarked s p cwd id w a =
    let m = (consume_pending_launch s p.session_id).1.pending_launches in
    let left = consume-IsMarked s id p.session_id a in
    let keyed = (consume-IsWellFormed s p.session_id w).0 in
    let t : PendingLaunch → Bool =
      λ q. same_group cwd p.permission_mode q && not q.may_hold_live_worker in
    elim (Bool-cases p.ambiguous) [
      | inr e ↦ rw e left
      | inl e ↦
          rw (e, put_all-where t as_live m keyed) (change-IsMarked id t as_live (λ q h. h) m left)
    ]

own-group : (p : PendingLaunch) → same_group p.cwd p.permission_mode p ≡ true
unfolding mode_eq
own-group p = simp eq_refl

-- A launch that stands in a map is a member of its group, and the only one of its session.
member-All :
    (id : String) (p : PendingLaunch) (t : PendingLaunch → Bool) (m : Dict PendingLaunch)
    → get id m ≡ some p
    → t p ≡ true
    → All IsAmbiguous (keep t (values m))
    → IsAmbiguous p
unfolding get
member-All id p t [] g h a = cc
member-All id p t ((k, q) ∷ m) g h a = elim (Bool-cases (str_eq k id)) [
  | inl e ↦
      let same : q ≡ p = ground (arith, g, e) in
      let inside : t q ≡ true = rw same h in
      let marked = rw inside at a in subst IsAmbiguous same marked.0
  | inr e ↦ elim (Bool-cases (t q)) [
    | inl k ↦ let marked = rw k at a in member-All id p t m (rw e at g) h marked.1
    | inr k ↦ member-All id p t m (rw e at g) h (rw k at a)
  ]
]

others-marked :
    (id k : String) (ps : List PendingLaunch)
    → k ≡ id
    → All (λ q. str_eq k q.session_id ≡ false) ps
    → All (λ q. is_marked id q ≡ true) ps
others-marked id k [] e a = tt
others-marked id k (p ∷ ps) e a = (
  ground (arith, e, a.0, eq_iff k p.session_id, eq_iff p.session_id id),
  others-marked id k ps e a.1,
)

marked_here : (q p : PendingLaunch) (id : String) → q ≡ p → IsAmbiguous p → is_marked id q ≡ true
marked_here q p id same h = let own : q.ambiguous ≡ true = rw same h in ground (arith, own)

alone-IsMarked :
    (id : String) (p : PendingLaunch) (m : Dict PendingLaunch)
    → Keyed m
    → get id m ≡ some p
    → IsAmbiguous p
    → IsMarked id m
unfolding get
alone-IsMarked id p [] w g h = tt
alone-IsMarked id p ((k, q) ∷ m) w g h = elim (Bool-cases (str_eq k id)) [
  | inl e ↦
      let same : q ≡ p = ground (arith, g, e) in
      (marked_here q p id same h, others-marked id k (values m) ((eq_iff k id).0 e) w.1)
  | inr e ↦ (ground (arith, w.0, e), alone-IsMarked id p m w.2 (rw e at g) h)
]

-- A launch of that session is tracked.
abbrev pub tracks : String → Step → Bool
tracks id (track session_id cwd mode launched now) = str_eq session_id id
tracks id (claim cwd mode) = false
tracks id (consume session_id) = false
tracks id (evict session_id) = false
tracks id clear = false

module _ (resolve : String → String) (is_absolute : String → Bool)
    (realpath : String → Option String) where
  claim-IsMarked :
      (s : PendingLaunchState) (cwd : String) (mode : PermissionMode) (id : String)
      → IsWellFormed s.pending_launches
      → IsMarked id s.pending_launches
      → IsMarked id
          (claim_pending_launch resolve is_absolute realpath s cwd mode).1.pending_launches
  unfolding claim_pending_launch
  claim-IsMarked s cwd mode id w a = elim (Bool-cases (is_absolute cwd)) [
    | inr k ↦ rw k a
    | inl k ↦
        let canonical = canonical_cwd resolve is_absolute realpath cwd in
        elim (oldest-group (values s.pending_launches) canonical mode) [
          | inl (o, _) ↦ rw (k, o) a
          | inr (p, _, o, _) ↦ rw (k, o) (take-IsMarked s p canonical id w a)
        ]
  ]

  step-IsMarked :
      (s : PendingLaunchState) (e : Step) (id : String)
      → tracks id e ≡ false
      → IsWellFormed s.pending_launches
      → IsMarked id s.pending_launches
      → IsMarked id (step resolve is_absolute realpath s e).pending_launches
  unfolding track_pending_launch clear_pending_launches
  step-IsMarked s (track j cwd mode launched now) id other w a =
      place-IsMarked id _ s.pending_launches other w.0 a
  step-IsMarked s (claim cwd mode) id other w a = claim-IsMarked s cwd mode id w a
  step-IsMarked s (consume j) id other w a = consume-IsMarked s id j a
  step-IsMarked s (evict j) id other w a = rw (evict-pending s j) (consume-IsMarked s id j a)
  step-IsMarked s clear id other w a = tt

  run-IsMarked :
      (s : PendingLaunchState) (es : List Step) (id : String)
      → All (λ e. tracks id e ≡ false) es
      → IsWellFormed s.pending_launches
      → IsMarked id s.pending_launches
      → IsMarked id (run resolve is_absolute realpath s es).pending_launches
  run-IsMarked s [] id others w a = a
  run-IsMarked s (e ∷ es) id others w a =
      run-IsMarked (step resolve is_absolute realpath s e) es id others.1
        (step-IsWellFormed resolve is_absolute realpath s e w) (step-IsMarked s e id others.0 w a)

  -- A launch that a map holds and that is not marked is alone in its group.
  alone_or_IsMarked :
      (s : PendingLaunchState) (id : String) (p : PendingLaunch)
      → IsWellFormed s.pending_launches
      → get id s.pending_launches ≡ some p
      → (length (group p.cwd p.permission_mode s.pending_launches) < 2)
        ⊎ IsMarked id s.pending_launches
  alone_or_IsMarked s id p w g = elim (w.1 p.cwd p.permission_mode) [
    | inl small ↦ inl small
    | inr a ↦ inr (
        alone-IsMarked id p s.pending_launches w.0 g (
          member-All id p (same_group p.cwd p.permission_mode) s.pending_launches g (own-group p)
            a))
  ]

  IsMarked-unclaimed :
      (s : PendingLaunchState) (q : PendingLaunch) (cwd : String) (mode : PermissionMode)
      (id : String)
      → IsMarked id s.pending_launches
      → group cwd mode s.pending_launches ≡ q ∷ []
      → q.ambiguous ≡ false
      → q.session_id ≡ id
      → ⊥
  IsMarked-unclaimed s q cwd mode id a g b same =
      let kept =
        All-keep (same_group cwd mode) (λ p. is_marked id p ≡ true) (values s.pending_launches) a in
      let marked : is_marked id q ≡ true = (subst (All (λ p. is_marked id p ≡ true)) g kept).0 in
      let own : str_eq q.session_id id ≡ true = (eq_iff q.session_id id).1 same in
      ground (arith, marked, own, b)

  -- A launch that is pending in a well-formed state is given to a bridge, after any history in which its session is
  -- not launched anew, exactly if the bridge reports an absolute directory, the launch is the only pending one of
  -- that directory and the bridge's mode, it is not marked ambiguous, and it stood alone with its directory and
  -- mode in that state, which is any that came before.
  pub run-claim_iff :
      (s : PendingLaunchState) (es : List Step) (cwd : String) (mode : PermissionMode) (id : String)
      (p : PendingLaunch)
      → IsWellFormed s.pending_launches
      → get id s.pending_launches ≡ some p
      → All (λ e. tracks id e ≡ false) es
      → let t = run resolve is_absolute realpath s es in
        ((claim_pending_launch resolve is_absolute realpath t cwd mode).0 ≡ some id) ↔ (
          (is_absolute cwd ≡ true)
          × (q : PendingLaunch) × (group
                (canonical_cwd resolve is_absolute realpath cwd)
                mode
                t.pending_launches
              ≡ q ∷ [])
          × (q.ambiguous ≡ false)
          × (q.session_id ≡ id)
          × (length (group p.cwd p.permission_mode s.pending_launches) < 2))
  run-claim_iff s es cwd mode id p w g others =
      let t = run resolve is_absolute realpath s es in
      let sole =
        claim-sole resolve is_absolute realpath t cwd mode id
          (run-IsWellFormed resolve is_absolute realpath s es w) in
      (
        λ e.
            let (absolute, q, only, unmarked, same) = sole.0 e in
            (
              absolute,
              q,
              only,
              unmarked,
              same,
              elim (alone_or_IsMarked s id p w g) [
                | inl small ↦ small
                | inr a ↦ absurd (
                    IsMarked-unclaimed t q (canonical_cwd resolve is_absolute realpath cwd) mode id
                      (run-IsMarked s es id others w a) only unmarked same)
              ],
            ),
        λ (absolute, q, only, unmarked, same, _). sole.1 (absolute, q, only, unmarked, same),
      )
