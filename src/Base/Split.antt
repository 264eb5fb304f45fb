-- ===== src/Base/Split.antt =====
-- `String.prototype.split` with a separator of one character, and its inverse.
use native.Mathlib.Omega.{arith}
use Prim.Native.Char.{Char}
use Prim.Native.String.{String, ◌++◌ as ◌+++◌}
use mathlib.Core.Path.{◌≡◌, refl, ap, sym, ◌∙◌}
use mathlib.Core.Logic.{inl, inr}
use mathlib.Core.Bool.{Bool, true, false, not, ◌&&◌}
use mathlib.Core.List.{List, [], ◌∷◌}
use text.Mathlib.Text.{◌==◌ as str_eq}
use text.Mathlib.TextLemmas.{nil-append, cons-append}
use text.Mathlib.TextEquality.{eq_iff}
use ccctl.Base.Tests.{if◌then◌else◌, Bool-cases}
use ccctl.Base.Lists.{All}

-- A character in front of the first part.
abbrev pub cons_first : Char → List String → List String
cons_first c [] = (String.◌∷◌ c "") ∷ []
cons_first c (x ∷ xs) = (String.◌∷◌ c x) ∷ xs

unfoldable pub split : String → String → List String
split sep String.[] = "" ∷ []
split sep (String.◌∷◌ c s) =
    let rest = split sep s in if str_eq (String.◌∷◌ c "") sep then "" ∷ rest else cons_first c rest

abbrev pub join : String → List String → String
join sep [] = ""
join sep (x ∷ []) = x
join sep (x ∷ y ∷ ys) = x +++ (sep +++ join sep (y ∷ ys))

-- The parts of two texts that are written one after the other.
abbrev pub glue : List String → List String → List String
glue [] ys = ys
glue (x ∷ []) [] = x ∷ []
glue (x ∷ []) (y ∷ ys) = (x +++ y) ∷ ys
glue (x ∷ z ∷ xs) ys = x ∷ glue (z ∷ xs) ys

-- The separator does not occur.
abbrev pub free : String → String → Bool
free sep String.[] = true
free sep (String.◌∷◌ c s) = not (str_eq (String.◌∷◌ c "") sep) && free sep s

module _ (sep : String) where
  pub split-cons : (s : String) → (x : String) × (xs : List String) × (split sep s ≡ x ∷ xs)
  unfolding split
  split-cons String.[] = ("", [], refl)
  split-cons (String.◌∷◌ c s) =
      let (x, xs, e) = split-cons s in
      elim (Bool-cases (str_eq (String.◌∷◌ c "") sep)) [
        | inl k ↦ ("", split sep s, rw k refl)
        | inr k ↦ (String.◌∷◌ c x, xs, rw (k, e) refl)
      ]

  join-cons_first :
      (c : Char) (x : String) (xs : List String)
      → join sep (cons_first c (x ∷ xs)) ≡ String.◌∷◌ c (join sep (x ∷ xs))
  join-cons_first c x [] = refl
  join-cons_first c x (y ∷ ys) = cons-append c x _

  join-empty : (x : String) (xs : List String) → join sep ("" ∷ x ∷ xs) ≡ sep +++ join sep (x ∷ xs)
  join-empty x xs = nil-append _

  -- Joining undoes splitting.
  pub join-split : (s : String) → join sep (split sep s) ≡ s
  unfolding split
  join-split String.[] = refl
  join-split (String.◌∷◌ c s) =
      let (x, xs, e) = split-cons s in
      let ih : join sep (x ∷ xs) ≡ s = rw e at (join-split s) in
      elim (Bool-cases (str_eq (String.◌∷◌ c "") sep)) [
        | inl k ↦
            rw (k, e)
              (join-empty x xs
                ∙ (ap (λ z. z +++ join sep (x ∷ xs)) (sym ((eq_iff (String.◌∷◌ c "") sep).0 k))
                    ∙ (cons-append c "" _ ∙ ap (String.◌∷◌ c) (nil-append _ ∙ ih))))
        | inr k ↦ rw (k, e) (join-cons_first c x xs ∙ ap (String.◌∷◌ c) ih)
      ]

  first-All :
      (c : Char) (xs : List String)
      → str_eq (String.◌∷◌ c "") sep ≡ false
      → All (λ x. free sep x ≡ true) xs
      → All (λ x. free sep x ≡ true) (cons_first c xs)
  first-All c [] k a = (ground arith, tt)
  first-All c (x ∷ xs) k (f, a) = (ground arith, a)

  pub split-All-free : (s : String) → All (λ x. free sep x ≡ true) (split sep s)
  unfolding split
  split-All-free String.[] = (refl, tt)
  split-All-free (String.◌∷◌ c s) = elim (Bool-cases (str_eq (String.◌∷◌ c "") sep)) [
    | inl k ↦ rw k (refl, split-All-free s)
    | inr k ↦ rw k (first-All c (split sep s) k (split-All-free s))
  ]

  pub split-free : (s : String) → free sep s ≡ true → split sep s ≡ s ∷ []
  unfolding split
  split-free String.[] f = refl
  split-free (String.◌∷◌ c s) f = elim (Bool-cases (str_eq (String.◌∷◌ c "") sep)) [
    | inl k ↦ absurd (ground arith)
    | inr k ↦ let ih = split-free s (ground arith) in rw (k, ih) refl
  ]

  glue-cons_first :
      (c : Char) (x : String) (xs : List String) (y : String) (ys : List String)
      → glue (cons_first c (x ∷ xs)) (y ∷ ys) ≡ cons_first c (glue (x ∷ xs) (y ∷ ys))
  glue-cons_first c x [] y ys = ap (λ z. z ∷ ys) (cons-append c x y)
  glue-cons_first c x (z ∷ xs) y ys = refl

  -- Splitting takes a concatenation to the concatenation of the parts, the two in the middle made one.
  pub split-append : (s t : String) → split sep (s +++ t) ≡ glue (split sep s) (split sep t)
  unfolding split
  split-append String.[] t =
      let (y, ys, e) = split-cons t in rw (nil-append t, e) (ap (λ z. z ∷ ys) (sym (nil-append y)))
  split-append (String.◌∷◌ c s) t =
      let (x, xs, e) = split-cons s in
      let (y, ys, f) = split-cons t in
      elim (Bool-cases (str_eq (String.◌∷◌ c "") sep)) [
        | inl k ↦ rw (cons-append c s t, k, split-append s t, e, split) refl
        | inr k ↦
            rw (cons-append c s t, k, split-append s t, e, f, split)
              (sym (glue-cons_first c x xs y ys))
      ]
