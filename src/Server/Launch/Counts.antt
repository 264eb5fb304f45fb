-- ===== src/Server/Launch/Counts.antt =====
-- How the operations of packages/server/src/pending-launch.ts change the number of sessions.
use native.Mathlib.Omega.{arith}
use ccctl.Base.{
  ℕ, ◌+◌, ◌≤◌, ◌≡◌, refl, ap, str_eq, String, Bool, [], ◌∷◌, Option, none, some, length,
  Option-cases, Bool-cases, inl, inr,
}
use ccctl.Base.Dict.{Dict, set, delete, get, values}
use ccctl.Core.Session.{Session, PermissionMode}
use ccctl.Server.Release.{
  ReleaseDisposition, tear_down, leave_running, no_op, release_launched_session,
}
use ccctl.Server.Pending.{
  PendingLaunch, canonical_cwd, oldest_pending_launch, PendingLaunchState, claim_pending_launch,
  evict_pending_launch, take_claim, drop_placeholder, consume_pending_launch, forget_released,
}

pub length-set : (k : String) (v : Session) (m : Dict Session) → length (set k v m) ≤ length m + 1
unfolding set
length-set k v [] = omega arith
length-set k v (e ∷ m) = ground (arith, length-set k v m)

-- 1 for a key that is not there.
abbrev pub new_key : Option Session → ℕ
new_key none = 1
new_key (some session) = 0

pub length-set_new :
    (k : String) (v : Session) (m : Dict Session)
    → length (set k v m) ≡ length m + new_key (get k m)
unfolding set get
length-set_new k v [] = omega arith
length-set_new k v ((j, x) ∷ m) = elim (Bool-cases (str_eq j k)) [
  | inl e ↦ rw e (omega arith)
  | inr e ↦ rw e (omega (arith, length-set_new k v m))
]

pub length-delete : (k : String) (m : Dict Session) → length (delete k m) ≤ length m
unfolding delete
length-delete k [] = omega arith
length-delete k (e ∷ m) = ground (arith, length-delete k m)

drop-le :
    (s : PendingLaunchState) (id : String)
    → length (drop_placeholder s id).sessions ≤ length s.sessions
unfolding drop_placeholder
drop-le s id = length-delete id s.sessions

consume-sessions :
    (s : PendingLaunchState) (id : String) → (consume_pending_launch s id).1.sessions ≡ s.sessions
unfolding consume_pending_launch
consume-sessions s id = ground arith

forget-sessions :
    (s : PendingLaunchState) (id : String) (d : Option ReleaseDisposition)
    → (forget_released s id d).sessions ≡ s.sessions
unfolding forget_released
forget-sessions s id none = refl
forget-sessions s id (some tear_down) = refl
forget-sessions s id (some leave_running) = refl
forget-sessions s id (some no_op) = refl

dropped-le :
    (s : PendingLaunchState) (id : String)
    → length (drop_placeholder (consume_pending_launch s id).1 id).sessions ≤ length s.sessions
dropped-le s id =
    omega (
      arith,
      drop-le (consume_pending_launch s id).1 id,
      ap (length {A = _}) (consume-sessions s id),
    )

pub evict-le :
    (s : PendingLaunchState) (id : String)
    → length (evict_pending_launch s id).0.sessions ≤ length s.sessions
unfolding evict_pending_launch
evict-le s id = elim (Option-cases (get id s.pending_launches)) [
  | inl e ↦ rw (e, evict_pending_launch) (omega arith)
  | inr (p, e) ↦
      let dropped = drop_placeholder (consume_pending_launch s id).1 id in
      elim (Bool-cases p.may_hold_live_worker) [
        | inl m ↦ rw (e, m, evict_pending_launch) (dropped-le s id)
        | inr m ↦
            rw
              (
                e,
                m,
                forget-sessions dropped id (release_launched_session p.launched).0,
                evict_pending_launch,
              )
              (dropped-le s id)
      ]
]

take-le :
    (s : PendingLaunchState) (p : PendingLaunch) (canonical : String)
    → length (take_claim s p canonical).1.sessions ≤ length s.sessions
unfolding take_claim
take-le s p canonical = elim (Bool-cases p.ambiguous) [
  | inl a ↦ simp (a, take_claim) (dropped-le s p.session_id)
  | inr a ↦
      simp (a, take_claim) (omega (arith, ap (length {A = _}) (consume-sessions s p.session_id)))
]

module _ (resolve : String → String) (is_absolute : String → Bool)
    (realpath : String → Option String) where
  pub claim-le :
      (s : PendingLaunchState) (cwd : String) (mode : PermissionMode)
      → length (claim_pending_launch resolve is_absolute realpath s cwd mode).1.sessions
        ≤ length s.sessions
  unfolding claim_pending_launch
  claim-le s cwd mode = elim (Bool-cases (is_absolute cwd)) [
    | inr a ↦ rw (a, claim_pending_launch) (omega arith)
    | inl a ↦
        let canonical = canonical_cwd resolve is_absolute realpath cwd in
        elim (Option-cases (oldest_pending_launch (values s.pending_launches) canonical mode)) [
          | inl o ↦ rw (a, o, claim_pending_launch) (omega arith)
          | inr (p, o) ↦ rw (a, o, claim_pending_launch) (take-le s p canonical)
        ]
  ]
