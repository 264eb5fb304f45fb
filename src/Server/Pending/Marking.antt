-- ===== src/Server/Pending/Marking.antt =====
-- The loops of packages/server/src/pending-launch.ts that write a changed copy of each pending launch of a
-- group back to the map.
use native.Mathlib.Omega.{arith}
use ccctl.Base.{
  ◌≡◌, refl, ap, ◌∙◌, sym, inl, inr, String, Bool, true, false, List, [], ◌∷◌, keep, str_eq, eq_iff,
  if◌then◌else◌, Bool-cases, All,
}
use ccctl.Base.Dict.{Dict, set, delete, values}
use ccctl.Server.Pending.{PendingLaunch, put_all}

-- Each launch stands under its own session id, and no id twice.
abbrev pub Keyed : Dict PendingLaunch → Type 0
Keyed [] = Unit
Keyed ((k, p) ∷ m) =
    (p.session_id ≡ k) × All (λ q. str_eq k q.session_id ≡ false) (values m) × Keyed m

-- The map with the launches that pass the test changed in place.
abbrev pub change_where :
    (PendingLaunch → Bool)
    → (PendingLaunch → PendingLaunch)
    → Dict PendingLaunch
    → Dict PendingLaunch
change_where t f [] = []
change_where t f ((k, p) ∷ m) = (k, (if t p then f p else p)) ∷ change_where t f m

put_all-skip :
    (f : PendingLaunch → PendingLaunch) (ps : List PendingLaunch) (k : String) (p : PendingLaunch)
    (m : Dict PendingLaunch)
    → All (λ q. str_eq k q.session_id ≡ false) ps
    → put_all f ps ((k, p) ∷ m) ≡ (k, p) ∷ put_all f ps m
unfolding put_all set
put_all-skip f [] k p m a = refl
put_all-skip f (q ∷ ps) k p m a = rw a.0 (put_all-skip f ps k p (set q.session_id (f q) m) a.1)

pub All-keep :
    (t : PendingLaunch → Bool) (P : PendingLaunch → Type 0) (ps : List PendingLaunch)
    → All P ps
    → All P (keep t ps)
All-keep t P [] a = tt
All-keep t P (p ∷ ps) a = elim (Bool-cases (t p)) [
  | inl e ↦ rw e (a.0, All-keep t P ps a.1)
  | inr e ↦ rw e (All-keep t P ps a.1)
]

set-own :
    (k j : String) (q p : PendingLaunch) (m : Dict PendingLaunch)
    → str_eq k j ≡ true
    → set j q ((k, p) ∷ m) ≡ (k, q) ∷ m
unfolding set
set-own k j q p m h = rw h refl

pub put_all-where :
    (t : PendingLaunch → Bool) (f : PendingLaunch → PendingLaunch) (m : Dict PendingLaunch)
    → Keyed m
    → put_all f (keep t (values m)) m ≡ change_where t f m
unfolding put_all
put_all-where t f [] w = refl
put_all-where t f ((k, p) ∷ m) w =
    let others = All-keep t (λ q. str_eq k q.session_id ≡ false) (values m) w.1 in
    let same : str_eq k p.session_id ≡ true = (eq_iff k p.session_id).1 (sym w.0) in
    let rest = put_all-where t f m w.2 in
    elim (Bool-cases (t p)) [
      | inl e ↦ rw e (
          ap (put_all f (keep t (values m))) (set-own k p.session_id (f p) p m same)
          ∙ put_all-skip f (keep t (values m)) k (f p) m others
          ∙ ap (λ l. (k, f p) ∷ l) rest)
      | inr e ↦ rw e (put_all-skip f (keep t (values m)) k p m others ∙ ap (λ l. (k, p) ∷ l) rest)
    ]

-- A change that keeps the session ids keeps the keys.
module _ (t : PendingLaunch → Bool) (f : PendingLaunch → PendingLaunch)
    (same_id : (p : PendingLaunch) → (f p).session_id ≡ p.session_id) where
  All-change_where :
      (k : String) (m : Dict PendingLaunch)
      → All (λ q. str_eq k q.session_id ≡ false) (values m)
      → All (λ q. str_eq k q.session_id ≡ false) (values (change_where t f m))
  All-change_where k [] a = tt
  All-change_where k ((j, p) ∷ m) a = (ground (arith, same_id p), All-change_where k m a.1)

  pub change_where-Keyed : (m : Dict PendingLaunch) → Keyed m → Keyed (change_where t f m)
  change_where-Keyed [] w = tt
  change_where-Keyed ((k, p) ∷ m) w =
      (ground (arith, same_id p, w.0), All-change_where k m w.1, change_where-Keyed m w.2)

All-delete :
    (k j : String) (m : Dict PendingLaunch)
    → All (λ q. str_eq k q.session_id ≡ false) (values m)
    → All (λ q. str_eq k q.session_id ≡ false) (values (delete j m))
unfolding delete
All-delete k j [] a = tt
All-delete k j ((i, p) ∷ m) a = ground (arith, All-delete k j m a.1)

pub delete-Keyed : (j : String) (m : Dict PendingLaunch) → Keyed m → Keyed (delete j m)
unfolding delete
delete-Keyed j [] w = tt
delete-Keyed j ((k, p) ∷ m) w = elim (Bool-cases (str_eq k j)) [
  | inl e ↦ rw e (delete-Keyed j m w.2)
  | inr e ↦ rw e (w.0, All-delete k j m w.1, delete-Keyed j m w.2)
]

All-set :
    (k j : String) (p : PendingLaunch) (m : Dict PendingLaunch)
    → str_eq k p.session_id ≡ false
    → All (λ q. str_eq k q.session_id ≡ false) (values m)
    → All (λ q. str_eq k q.session_id ≡ false) (values (set j p m))
unfolding set
All-set k j p [] h a = (h, tt)
All-set k j p ((i, q) ∷ m) h a = ground (arith, All-set k j p m h a.1)

pub set-Keyed :
    (p : PendingLaunch) (m : Dict PendingLaunch) → Keyed m → Keyed (set p.session_id p m)
unfolding set
set-Keyed p [] w = (refl, tt, tt)
set-Keyed p ((k, q) ∷ m) w = elim (Bool-cases (str_eq k p.session_id)) [
  | inl e ↦ rw e (sym ((eq_iff k p.session_id).0 e), w.1, w.2)
  | inr e ↦ rw e (w.0, All-set k p.session_id p m e w.1, set-Keyed p m w.2)
]
