-- ===== src/Server/Pending/Claims.antt =====
-- Which launch a registering bridge is given by packages/server/src/pending-launch.ts.
use native.Mathlib.Omega.{arith}
use ccctl.Base.{
  ℕ, ◌<◌, ◌≡◌, refl, ap, inl, inr, ◌⊎◌, ◌↔◌, String, Bool, true, false, List, [], ◌∷◌, Option, none,
  some, keep, length, Bool-cases, All,
}
use ccctl.Base.Dict.{values}
use ccctl.Core.Json.{unsome}
use ccctl.Core.Session.{PermissionMode}
use ccctl.Server.Release.{LaunchedSession}
use ccctl.Server.Pending.{
  PendingLaunch, PendingLaunchState, same_group, consume_pending_launch, oldest_pending_launch,
  take_claim, track_pending_launch, claim_pending_launch, canonical_cwd, evict_pending_launch,
  clear_pending_launches,
}
use ccctl.Server.Pending.Groups.{group, IsAmbiguous, IsWellFormed}
use ccctl.Server.Pending.Preserved.{
  place-IsWellFormed, consume-IsWellFormed, take-IsWellFormed, evict-IsWellFormed,
}

pub oldest-group :
    (ps : List PendingLaunch) (cwd : String) (mode : PermissionMode)
    → ((oldest_pending_launch ps cwd mode ≡ none) × (keep (same_group cwd mode) ps ≡ []))
      ⊎ ((p : PendingLaunch) × (rest : List PendingLaunch) × (oldest_pending_launch ps cwd mode
            ≡ some p)
          × (keep (same_group cwd mode) ps ≡ p ∷ rest))
unfolding oldest_pending_launch
oldest-group [] cwd mode = inl (refl, refl)
oldest-group (p ∷ ps) cwd mode = elim (Bool-cases (same_group cwd mode p)) [
  | inl e ↦ inr (p, keep (same_group cwd mode) ps, rw e refl, rw e refl)
  | inr e ↦ rw e (oldest-group ps cwd mode)
]

pub taken :
    (s : PendingLaunchState) (p : PendingLaunch) (canonical id : String)
    → ((take_claim s p canonical).0 ≡ some id) ↔ ((p.ambiguous ≡ false) × (p.session_id ≡ id))
unfolding take_claim
taken s p canonical id = elim (Bool-cases p.ambiguous) [
  | inl e ↦ rw e ((λ h. cc), (λ h. cc h.0))
  | inr e ↦ rw e ((λ h. (refl, unsome h)), (λ h. ap (λ i. some i) h.1))
]

true≢false : (p : PendingLaunch) → p.ambiguous ≡ false → IsAmbiguous p → ⊥
true≢false p b h = cc

sole :
    (p : PendingLaunch) (rest : List PendingLaunch)
    → p.ambiguous ≡ false
    → (length (p ∷ rest) < 2) ⊎ All IsAmbiguous (p ∷ rest)
    → rest ≡ []
sole p [] b h = refl
sole p (q ∷ rest) b (inl h) = absurd (omega arith)
sole p (q ∷ rest) b (inr h) = absurd (true≢false p b h.0)

pub data Step : Type 0 where
  track :
      (session_id cwd : String) (mode : PermissionMode) (launched : LaunchedSession) (now : ℕ)
      → Step
  claim : (cwd : String) (mode : PermissionMode) → Step
  consume evict : (session_id : String) → Step
  clear : Step

module _ (resolve : String → String) (is_absolute : String → Bool)
    (realpath : String → Option String) where
  abbrev pub step : PendingLaunchState → Step → PendingLaunchState
  step s (track id cwd mode launched now) =
      track_pending_launch resolve is_absolute realpath s id cwd mode launched now
  step s (claim cwd mode) = (claim_pending_launch resolve is_absolute realpath s cwd mode).1
  step s (consume id) = (consume_pending_launch s id).1
  step s (evict id) = (evict_pending_launch s id).0
  step s clear = clear_pending_launches s

  abbrev pub run : PendingLaunchState → List Step → PendingLaunchState
  run s [] = s
  run s (e ∷ es) = run (step s e) es

  claim-IsWellFormed :
      (s : PendingLaunchState) (cwd : String) (mode : PermissionMode)
      → IsWellFormed s.pending_launches
      → IsWellFormed
          (claim_pending_launch resolve is_absolute realpath s cwd mode).1.pending_launches
  unfolding claim_pending_launch
  claim-IsWellFormed s cwd mode w = elim (Bool-cases (is_absolute cwd)) [
    | inr a ↦ rw a w
    | inl a ↦
        elim (oldest-group (values s.pending_launches)
          (canonical_cwd resolve is_absolute realpath cwd) mode) [
            | inl (o, _) ↦ rw (a, o) w
            | inr (p, _, o, _) ↦
                rw (a, o) (take-IsWellFormed s p (canonical_cwd resolve is_absolute realpath cwd) w)
          ]
  ]

  pub step-IsWellFormed :
      (s : PendingLaunchState) (e : Step)
      → IsWellFormed s.pending_launches
      → IsWellFormed (step s e).pending_launches
  unfolding track_pending_launch clear_pending_launches
  step-IsWellFormed s (track id cwd mode launched now) w = place-IsWellFormed _ s.pending_launches w
  step-IsWellFormed s (claim cwd mode) w = claim-IsWellFormed s cwd mode w
  step-IsWellFormed s (consume id) w = consume-IsWellFormed s id w
  step-IsWellFormed s (evict id) w = evict-IsWellFormed s id w
  step-IsWellFormed s clear w = (tt, λ cwd mode. inl (omega arith))

  -- From a well-formed state, over any history of tracked launches, claims, consumptions, evictions and clears, each pending launch
  -- stands under its own session id, once, and a group of two or more with one directory and one mode is
  -- ambiguous throughout.
  pub run-IsWellFormed :
      (s : PendingLaunchState) (es : List Step)
      → IsWellFormed s.pending_launches
      → IsWellFormed (run s es).pending_launches
  run-IsWellFormed s [] w = w
  run-IsWellFormed s (e ∷ es) w = run-IsWellFormed (step s e) es (step-IsWellFormed s e w)

  -- In a well-formed state, a bridge is given a session exactly if it reports an absolute directory and that
  -- session's launch is the only pending one of its directory and mode, and is not marked ambiguous.
  pub claim-sole :
      (s : PendingLaunchState) (cwd : String) (mode : PermissionMode) (id : String)
      → IsWellFormed s.pending_launches
      → ((claim_pending_launch resolve is_absolute realpath s cwd mode).0 ≡ some id) ↔ (
          (is_absolute cwd ≡ true)
          × (p : PendingLaunch) × (group
                (canonical_cwd resolve is_absolute realpath cwd)
                mode
                s.pending_launches
              ≡ p ∷ [])
          × (p.ambiguous ≡ false)
          × (p.session_id ≡ id))
  unfolding claim_pending_launch
  claim-sole s cwd mode id w = elim (Bool-cases (is_absolute cwd)) [
    | inr a ↦ rw a ((λ e. cc), (λ h. cc h.0))
    | inl a ↦
        let canonical = canonical_cwd resolve is_absolute realpath cwd in
        elim (oldest-group (values s.pending_launches) canonical mode) [
          | inl (o, g) ↦ rw (a, o, g) ((λ e. cc), (λ h. cc h.2))
          | inr (p, rest, o, g) ↦
              rw (a, o, g)
                (
                  λ e.
                      let (b, same) = (taken s p canonical id).0 e in
                      (
                        refl,
                        p,
                        ap (λ l. p ∷ l) (sole p rest b (rw g at (w.1 canonical mode))),
                        b,
                        same,
                      ),
                  λ h.
                      let same : p ≡ h.1 = cc (h.2) in
                      (taken s p canonical id).1 (rw same (h.3, h.4)),
                )
        ]
  ]
