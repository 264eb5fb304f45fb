-- ===== src/Server/Reconcile/Partition.antt =====
-- No recorded launch is lost by packages/server/src/session-reconcile.ts, and none comes back that is gone.
use native.Mathlib.Omega.{arith}
use mathlib.Core.List.{Perm, perm_middle}
use mathlib.Core.List.Perm
use ccctl.Base.{
  ◌≡◌, ◌≢◌, ◌⊎◌, inl, inr, String, Bool, true, false, not, ◌||◌, List, [], ◌∷◌, ◌++◌, some,
  if◌then◌else◌, All, Bool-cases, str_eq-cases,
}
use ccctl.Base.Dict.{Dict, get, set, get-set}
use ccctl.Core.Session.{Session, registering}
use ccctl.Server.Reconcile.{
  RecordedLaunch, ReconcileOutcome, is_registering, reconcile_recorded_launches,
  rehydrate_retained_sessions,
}

-- A launch that is to come back: it had registered, and its process is alive.
abbrev pub IsLive : (String → Bool) → RecordedLaunch → Type 0
IsLive probe r = (r.session.status ≢ registering) × (probe r.marker ≡ true)

abbrev pub IsGone : (String → Bool) → RecordedLaunch → Type 0
IsGone probe r = (r.session.status ≡ registering) ⊎ (probe r.marker ≡ false)

module _ (probe : String → Bool) where
  abbrev Sorted : List RecordedLaunch → ReconcileOutcome → Type 0
  Sorted rs o =
      Perm rs (o.retained ++ o.evicted)
      × All (IsLive probe) o.retained
      × All (IsGone probe) o.evicted

  live :
      (r : RecordedLaunch)
      → (is_registering r.session.status || not (probe r.marker)) ≡ false
      → IsLive probe r
  live r e = (λ k. cc (rw k at e), ground arith)

  gone :
      (r : RecordedLaunch)
      → (is_registering r.session.status || not (probe r.marker)) ≡ true
      → IsGone probe r
  gone r e = ground arith

  -- Every recorded launch is either retained or evicted, as often as it is recorded; it is retained if it
  -- had registered and its process is alive, and evicted if it had not or is not.
  pub reconcile-Perm :
      (rs : List RecordedLaunch)
      → let o = reconcile_recorded_launches rs probe in
        Perm rs (o.retained ++ o.evicted)
        × All (IsLive probe) o.retained
        × All (IsGone probe) o.evicted
  unfolding reconcile_recorded_launches
  reconcile-Perm [] = (Perm.nil, tt, tt)
  reconcile-Perm (r ∷ rs) =
      let (perm, kept, dropped) = reconcile-Perm rs in
      elim (Bool-cases (is_registering r.session.status || not (probe r.marker))) [
        | inl e ↦
            rw e (
              Perm.trans (Perm.cons r perm) (Perm.symm (perm_middle _ _)),
              kept,
              (gone r e, dropped),
            )
        | inr e ↦ rw e (Perm.cons r perm, (live r e, kept), dropped)
      ]

-- Where the session under a key comes from.
abbrev pub Source : Dict Session → List RecordedLaunch → String → Session → Type 0
Source sessions [] k s = get k sessions ≡ some s
Source sessions (r ∷ rs) k s =
    ((r.session ≡ s) × (r.session.id ≡ k) × (s.status ≢ registering)) ⊎ Source sessions rs k s

Source-step :
    (r : RecordedLaunch) (rs : List RecordedLaunch) (sessions : Dict Session) (k : String)
    (s : Session)
    → Source
        (if is_registering r.session.status then sessions else set r.session.id r.session sessions)
        rs
        k
        s
    → Source sessions (r ∷ rs) k s
Source-step r [] sessions k s e = elim (Bool-cases (is_registering r.session.status)) [
  | inl g ↦ inr (rw g at e)
  | inr g ↦ elim (str_eq-cases r.session.id k) [
    | inl (i, t) ↦
        let same : r.session ≡ s = cc (rw t at (rw get-set at (rw g at e))) in
        inl (same, i, λ z. cc (rw z at (rw same at g)))
    | inr (_, t) ↦ inr (rw t at (rw get-set at (rw g at e)))
  ]
]
Source-step r (q ∷ rs) sessions k s (inl h) = inr (inl h)
Source-step r (q ∷ rs) sessions k s (inr h) = elim (Source-step r rs sessions k s h) [
  | inl g ↦ inl g
  | inr g ↦ inr (inr g)
]

-- A session that is in the map after the rehydration was there before, or is that of a retained launch
-- under its own id, and such a one is never registering.
pub rehydrate-Source :
    (rs : List RecordedLaunch) (sessions : Dict Session) (k : String) (s : Session)
    → get k (rehydrate_retained_sessions sessions rs) ≡ some s
    → Source sessions rs k s
unfolding rehydrate_retained_sessions
rehydrate-Source [] sessions k s e = e
rehydrate-Source (r ∷ rs) sessions k s e =
    Source-step r rs sessions k s (rehydrate-Source rs _ k s e)
