-- ===== src/Core/Detail/Stable.antt =====
-- Text that has been made displayable once is displayed as it is from then on.
use Prim.Native.String.{◌++◌}
use native.Mathlib.Omega.{arith}
use text.Mathlib.TextLemmas.{cons-append}
use ccctl.Base.{
  ℕ, zero, suc, ◌-◌, ◌≤◌, ◌+◌, ◌≡◌, refl, ◌≢◌, inl, inr, String, Char, Bool, true, false, str_eq,
  eq_iff, str_eq_ne, Bool-cases, ap, ap₂, some, sym, ltb, ◌==◌,
}
use ccctl.Base.Texts.{size, trim, trim_start, trim_end}
use ccctl.Core.Detail.{
  drop_format, blank_control, collapse, flatten, prefix, truncate, displayable_text,
}
use ccctl.Core.Detail.Tidy.{Tidy, Tidy-step, Tidy-word, Tidy-space, ellipsis-Tidy, flatten-Tidy}

Tidy-tail : (run : Bool) (c : Char) (s : String) → Tidy run (String.◌∷◌ c s) → (b : Bool) × Tidy b s
Tidy-tail run c s t = elim (Tidy-step run c s t) [
  | inl (_, _, _, k) ↦ (true, k)
  | inr (_, k) ↦ (false, k)
]

drop_format-eq : (run : Bool) (s : String) → Tidy run s → drop_format s ≡ s
unfolding drop_format
drop_format-eq run String.[] t = refl
drop_format-eq run (String.◌∷◌ c s) t =
    let (b, k) = Tidy-tail run c s t in rw (t.0.0) (ap (String.◌∷◌ c) (drop_format-eq b s k))

blank_control-eq : (run : Bool) (s : String) → Tidy run s → blank_control s ≡ s
unfolding blank_control
blank_control-eq run String.[] t = refl
blank_control-eq run (String.◌∷◌ c s) t =
    let (b, k) = Tidy-tail run c s t in rw (t.0.1) (ap (String.◌∷◌ c) (blank_control-eq b s k))

collapse-eq : (run : Bool) (s : String) → Tidy run s → collapse run s ≡ s
unfolding collapse
collapse-eq run String.[] t = refl
collapse-eq run (String.◌∷◌ c s) t = elim (Tidy-step run c s t) [
  | inl (e, p, q, k) ↦ rw (e, q) (ap₂ String.◌∷◌ (sym p) (collapse-eq true s k))
  | inr (e, k) ↦ rw e (ap (String.◌∷◌ c) (collapse-eq false s k))
]

Tidy-relax : (s : String) → Tidy true s → Tidy false s
Tidy-relax String.[] t = refl
Tidy-relax (String.◌∷◌ c s) t = elim (Tidy-step true c s t) [
  | inl (e, p, q, k) ↦ cc
  | inr (e, k) ↦ Tidy-word false c s t.0 e k
]

trim_start-eq : (s : String) → Tidy true s → trim_start s ≡ s
unfolding trim_start
trim_start-eq String.[] t = refl
trim_start-eq (String.◌∷◌ c s) t = elim (Tidy-step true c s t) [
  | inl (e, p, q, k) ↦ cc
  | inr (e, k) ↦ rw e refl
]

-- A space is never last, so what follows it is not empty.
trim_end-eq : (run : Bool) (s : String) → Tidy run s → trim_end s ≡ s
unfolding trim_end
trim_end-eq run String.[] t = refl
trim_end-eq run (String.◌∷◌ c s) t = elim (Tidy-step run c s t) [
  | inl (e, p, q, k) ↦ rw (e, trim_end-eq true s k) (rw (follows s k) refl)
  | inr (e, k) ↦ rw (e, trim_end-eq false s k) refl
]
  where
    follows : (u : String) → Tidy true u → str_eq u "" ≡ false
    follows String.[] k = cc
    follows (String.◌∷◌ d u) k = str_eq_ne _ _ (λ z. cc)

flatten-eq : (s : String) → Tidy true s → flatten s ≡ s
unfolding flatten trim
flatten-eq s t =
    rw (drop_format-eq true s t, blank_control-eq true s t, collapse-eq false s (Tidy-relax s t))
      (rw (trim_start-eq s t) (trim_end-eq true s t))

prefix-Tidy : (n : ℕ) (run : Bool) (s : String) → Tidy run s → Tidy run (prefix n s ++ "…")
unfolding prefix
prefix-Tidy zero run s t = ellipsis-Tidy run
prefix-Tidy (suc n) run String.[] t = ellipsis-Tidy run
prefix-Tidy (suc n) run (String.◌∷◌ c s) t = rw cons-append (elim (Tidy-step run c s t) [
  | inl (e, p, q, k) ↦ Tidy-space run c _ t.0 e p q (prefix-Tidy n true s k)
  | inr (e, k) ↦ Tidy-word run c _ t.0 e (prefix-Tidy n false s k)
])

truncate-Tidy : (m : ℕ) (s : String) → Tidy true s → Tidy true (truncate m s)
unfolding truncate
truncate-Tidy m s t = elim (Bool-cases (ltb m (size s))) [
  | inl e ↦ rw e (prefix-Tidy _ true s t)
  | inr e ↦ rw e t
]

size-prefix : (n : ℕ) (s : String) → size (prefix n s ++ "…") ≤ n + 1
unfolding prefix
size-prefix zero s = omega arith
size-prefix (suc n) String.[] = omega arith
size-prefix (suc n) (String.◌∷◌ c s) = rw cons-append (omega (arith, size-prefix n s))

pub size-truncate : (m : ℕ) (s : String) → 1 ≤ m → size (truncate m s) ≤ m
unfolding truncate
size-truncate m s h = elim (Bool-cases (ltb m (size s))) [
  | inl e ↦ rw (e, positive m h) (omega (arith, size-prefix (m - 1) s))
  | inr e ↦ rw e (ground arith)
]
  where
    positive : (m : ℕ) → 1 ≤ m → (m == 0) ≡ false
    positive m h = ground arith

truncate_of_le : (m : ℕ) (s : String) → size s ≤ m → truncate m s ≡ s
unfolding truncate
truncate_of_le m s h = ground arith

displayable_text_of_Tidy :
    (m : ℕ) (s : String) → Tidy true s → size s ≤ m → displayable_text s m ≡ some s
unfolding displayable_text
displayable_text_of_Tidy m String.[] t h = cc
displayable_text_of_Tidy m (String.◌∷◌ c s) t h =
    rw (flatten-eq _ t, str_eq_ne (String.◌∷◌ c s) "" (λ z. cc)) (ap some (truncate_of_le m _ h))

displayable_text-cases :
    (s : String) (m : ℕ) {t : String}
    → displayable_text s m ≡ some t
    → (flatten s ≢ "") × (t ≡ truncate m (flatten s))
unfolding displayable_text
displayable_text-cases s m e = ground (arith, eq_iff (flatten s) "")

-- Whatever text a worker sends, what is shown of it is at most as long as the limit, has no format and
-- no control character, no white space but single spaces between words, and would be shown unchanged
-- if it were sent in its turn (the limit being at least 1).
pub displayable_text-Tidy :
    (s : String) (m : ℕ) (t : String)
    → 1 ≤ m
    → displayable_text s m ≡ some t
    → Tidy true t × (size t ≤ m) × (displayable_text t m ≡ some t)
displayable_text-Tidy s m t h e =
    let (some_text, made) = displayable_text-cases s m e in
    let tidy : Tidy true t = elim (flatten-Tidy s) [
      | inl z ↦ absurd (some_text z)
      | inr k ↦ rw made (truncate-Tidy m _ k)
    ] in
    let short : size t ≤ m = rw made (size-truncate m (flatten s) h) in
    (tidy, short, displayable_text_of_Tidy m t tidy short)
