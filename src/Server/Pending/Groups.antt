-- ===== src/Server/Pending/Groups.antt =====
-- The groups of pending launches with one directory and one permission mode, which
-- packages/server/src/pending-launch.ts tells apart no further, through every operation.
use native.Mathlib.Omega.{arith}
use ccctl.Base.{
  ◌≤◌, ◌<◌, ◌≡◌, refl, ap, ◌∙◌, sym, inl, inr, ◌⊎◌, String, Bool, true, false, List, [], ◌∷◌, keep,
  length, str_eq, eq_iff, Bool-cases, All,
}
use ccctl.Base.Dict.{Dict, set, delete, values}
use ccctl.Core.Session.{PermissionMode}
use ccctl.Core.Mode.{mode_name, permission_mode_of, permission_mode_of-mode_name}
use ccctl.Core.Json.{unsome}
use ccctl.Server.Pending.{PendingLaunch, same_group, mode_eq, as_ambiguous}
use ccctl.Server.Pending.Marking.{Keyed, change_where, delete-Keyed}

abbrev pub group : String → PermissionMode → Dict PendingLaunch → List PendingLaunch
group cwd mode m = keep (same_group cwd mode) (values m)

abbrev pub IsAmbiguous : PendingLaunch → Type 0
IsAmbiguous p = p.ambiguous ≡ true

-- A group of two or more is ambiguous throughout.
abbrev pub IsMarked : Dict PendingLaunch → Type 0
IsMarked m =
    (cwd : String) (mode : PermissionMode)
    → (length (group cwd mode m) < 2) ⊎ All IsAmbiguous (group cwd mode m)

abbrev pub IsWellFormed : Dict PendingLaunch → Type 0
IsWellFormed m = Keyed m × IsMarked m

pub mode_eq→eq : (a b : PermissionMode) → mode_eq a b ≡ true → a ≡ b
unfolding mode_eq
mode_eq→eq a b e =
    let names = (eq_iff (mode_name a) (mode_name b)).0 e in
    unsome (
      sym (permission_mode_of-mode_name a)
      ∙ ap permission_mode_of names
      ∙ permission_mode_of-mode_name b)

-- A map whose groups are no larger than another's, and ambiguous where the other's are.
abbrev pub Narrows : String → PermissionMode → Dict PendingLaunch → Dict PendingLaunch → Type 0
Narrows cwd mode m n =
    (length (group cwd mode n) ≤ length (group cwd mode m))
    × (All IsAmbiguous (group cwd mode m) → All IsAmbiguous (group cwd mode n))

-- A launch in front of two maps, or of the second only where it is no member of the group.
keep-Narrows :
    (cwd : String) (mode : PermissionMode) (k : String) (p : PendingLaunch)
    (m n : Dict PendingLaunch)
    → Narrows cwd mode m n
    → Narrows cwd mode ((k, p) ∷ m) ((k, p) ∷ n)
keep-Narrows cwd mode k p m n h = elim (Bool-cases (same_group cwd mode p)) [
  | inl e ↦ rw e (omega arith, λ a. (a.0, h.1 a.1))
  | inr e ↦ rw e h
]

drop-Narrows :
    (cwd : String) (mode : PermissionMode) (k : String) (p : PendingLaunch)
    (m n : Dict PendingLaunch)
    → Narrows cwd mode m n
    → Narrows cwd mode ((k, p) ∷ m) n
drop-Narrows cwd mode k p m n h = elim (Bool-cases (same_group cwd mode p)) [
  | inl e ↦ rw e (omega arith, λ a. h.1 a.1)
  | inr e ↦ rw e h
]

other-Narrows :
    (cwd : String) (mode : PermissionMode) (k : String) (q : PendingLaunch)
    (m n : Dict PendingLaunch)
    → same_group cwd mode q ≡ false
    → Narrows cwd mode m n
    → Narrows cwd mode m ((k, q) ∷ n)
other-Narrows cwd mode k q m n e h = rw e h

pub delete-Narrows :
    (cwd : String) (mode : PermissionMode) (j : String) (m : Dict PendingLaunch)
    → Narrows cwd mode m (delete j m)
unfolding delete
delete-Narrows cwd mode j [] = (omega arith, λ a. a)
delete-Narrows cwd mode j ((k, p) ∷ m) = elim (Bool-cases (str_eq k j)) [
  | inl e ↦ rw e (drop-Narrows cwd mode k p m (delete j m) (delete-Narrows cwd mode j m))
  | inr e ↦ rw e (keep-Narrows cwd mode k p m (delete j m) (delete-Narrows cwd mode j m))
]

pub set-Narrows :
    (cwd : String) (mode : PermissionMode) (j : String) (q : PendingLaunch) (m : Dict PendingLaunch)
    → same_group cwd mode q ≡ false
    → Narrows cwd mode m (set j q m)
unfolding set
set-Narrows cwd mode j q [] h = other-Narrows cwd mode j q [] [] h (omega arith, λ a. a)
set-Narrows cwd mode j q ((k, p) ∷ m) h = elim (Bool-cases (str_eq k j)) [
  | inl e ↦ rw e (
      other-Narrows cwd mode k q ((k, p) ∷ m) m h
        (drop-Narrows cwd mode k p m m (omega arith, λ a. a)))
  | inr e ↦ rw e (keep-Narrows cwd mode k p m (set j q m) (set-Narrows cwd mode j q m h))
]

pub Narrows-marked :
    (cwd : String) (mode : PermissionMode) (m n : Dict PendingLaunch)
    → Narrows cwd mode m n
    → (length (group cwd mode m) < 2) ⊎ All IsAmbiguous (group cwd mode m)
    → (length (group cwd mode n) < 2) ⊎ All IsAmbiguous (group cwd mode n)
Narrows-marked cwd mode m n h (inl small) = inl (omega arith)
Narrows-marked cwd mode m n h (inr a) = inr (h.1 a)

pub delete-IsWellFormed :
    (j : String) (m : Dict PendingLaunch) → IsWellFormed m → IsWellFormed (delete j m)
delete-IsWellFormed j m w = (
  delete-Keyed j m w.0,
  λ cwd mode. Narrows-marked cwd mode m (delete j m) (delete-Narrows cwd mode j m) (w.1 cwd mode),
)

-- A change that keeps the group of each launch and takes the mark from none narrows every group.
pub change-Narrows :
    (t : PendingLaunch → Bool) (f : PendingLaunch → PendingLaunch) (cwd : String)
    (mode : PermissionMode)
    → ((p : PendingLaunch) → same_group cwd mode (f p) ≡ same_group cwd mode p)
    → ((p : PendingLaunch) → IsAmbiguous p → IsAmbiguous (f p))
    → (m : Dict PendingLaunch) → Narrows cwd mode m (change_where t f m)
change-Narrows t f cwd mode g a [] = (omega arith, λ h. h)
change-Narrows t f cwd mode g a ((k, p) ∷ m) =
    let rest = change-Narrows t f cwd mode g a m in
    elim (Bool-cases (t p)) [
      | inl e ↦ elim (Bool-cases (same_group cwd mode p)) [
        | inl d ↦ rw (e, g p, d) (omega arith, λ h. (a p h.0, rest.1 h.1))
        | inr d ↦ rw (e, g p, d) rest
      ]
      | inr e ↦ rw e (keep-Narrows cwd mode k p m (change_where t f m) rest)
    ]

-- The marking of a group marks it.
pub marked-group :
    (cwd : String) (mode : PermissionMode) (m : Dict PendingLaunch)
    → All IsAmbiguous (group cwd mode (change_where (same_group cwd mode) as_ambiguous m))
marked-group cwd mode [] = tt
marked-group cwd mode ((k, p) ∷ m) = elim (Bool-cases (same_group cwd mode p)) [
  | inl e ↦ rw (e, e) (refl, marked-group cwd mode m)
  | inr e ↦ rw (e, e) (marked-group cwd mode m)
]
