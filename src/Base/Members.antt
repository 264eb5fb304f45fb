-- ===== src/Base/Members.antt =====
-- Membership of texts, by a test and by the library's `Mem`.
use native.Mathlib.Omega.{arith}
use text.Mathlib.Text.{◌==◌ as str_eq}
use text.Mathlib.TextEquality.{eq_iff}
use mathlib.Core.Bool.{Bool, true, false}
use mathlib.Core.Path.{◌≡◌}
use mathlib.Core.Logic.{◌↔◌, inl, inr}
use mathlib.Core.Logic.Or
use mathlib.Core.List.{
  List, [], ◌∷◌, Mem, Memᴰ, mem-cons, mem-cons_self, mem-cons_of_mem, not-mem-nil,
}
use Prim.Native.String.{String}
use ccctl.Base.Tests.{Bool-cases, str_eq-cases}
use ccctl.Base.Lists.{any, All}

Bool-is_set : IsSet Bool
Bool-is_set = hlevel

pub any-mem : (a : String) (xs : List String) → (any (str_eq a) xs ≡ true) ↔ Mem a xs
any-mem a [] = (λ e. cc, λ m. absurd (not-mem-nil m))
any-mem a (x ∷ xs) = (
  λ e. elim (str_eq-cases a x) [
    | inl (p, _) ↦ mem-cons.1 (Or.inl p)
    | inr (_, q) ↦ mem-cons_of_mem x ((any-mem a xs).0 (rw q at e))
  ],
  λ m.
      Or.elim (Bool-is_set _ _) (mem-cons.0 m)
        (λ p. let h : str_eq a x ≡ true = (eq_iff a x).1 p in ground arith)
        (λ k. let h = (any-mem a xs).1 k in ground arith),
)

pub not-any-mem : (a : String) (xs : List String) → (any (str_eq a) xs ≡ false) ↔ (¬ Mem a xs)
not-any-mem a xs = (
  λ e m. cc ((any-mem a xs).1 m),
  λ n. elim (Bool-cases (any (str_eq a) xs)) [
    | inl e ↦ absurd (n ((any-mem a xs).0 e))
    | inr e ↦ e
  ],
)

-- What holds of all the members holds of each.
pub All-mem {ℓ κ} :
    {A : Type ℓ} (P : A → Type κ) (xs : List A) {a : A}
    → ((b : A) → IsProp (P b))
    → All P xs
    → Mem a xs
    → P a
All-mem P [] prop h m = absurd (not-mem-nil m)
All-mem P (x ∷ xs) prop h m =
    Or.elim (prop _) (mem-cons.0 m) (λ e. rw e h.0) (All-mem P xs prop h.1)

pub All-of_mem {ℓ κ} :
    {A : Type ℓ} (P : A → Type κ) (xs : List A) → ((a : A) → Mem a xs → P a) → All P xs
All-of_mem P [] h = tt
All-of_mem P (x ∷ xs) h = (h x mem-cons_self, All-of_mem P xs (λ a m. h a (mem-cons_of_mem x m)))

pub All-map {ℓ κ μ} :
    {A : Type ℓ} (P : A → Type κ) (Q : A → Type μ) (xs : List A)
    → ((a : A) → P a → Q a)
    → All P xs
    → All Q xs
All-map P Q [] f h = tt
All-map P Q (x ∷ xs) f h = (f x h.0, All-map P Q xs f h.1)

pub All-listed {ℓ κ} :
    {A : Type ℓ} (P : A → Type κ) (xs : List A) {a : A} → All P xs → Memᴰ a xs → P a
All-listed P [] h m = elim m [ ]
All-listed P (x ∷ xs) h (Memᴰ.head e) = rw e h.0
All-listed P (x ∷ xs) h (Memᴰ.tail m) = All-listed P xs h.1 m
