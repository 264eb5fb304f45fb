-- ===== src/Core/Detail/Tidy.antt =====
-- Tidy text: what `flatten` makes of any text, and leaves alone.
use native.Mathlib.Omega.{arith}
use ccctl.Base.{
  ◌≡◌, refl, ◌⊎◌, inl, inr, String, Char, code, Bool, true, false, str_eq, Bool-cases,
  if◌then◌else◌,
}
use ccctl.Base.Texts.{is_space, trim, trim_start, trim_end}
use ccctl.Core.Detail.{is_format, is_control, drop_format, blank_control, collapse, flatten}

-- No format and no control character.
abbrev pub IsShown : Char → Type 0
IsShown c = (is_format (code c) ≡ false) × (is_control (code c) ≡ false)

abbrev Shown : String → Type 0
Shown String.[] = Unit
Shown (String.◌∷◌ c s) = IsShown c × Shown s

-- The only white space is a space that stands alone; `run` says that one stands before.
abbrev Spaced : Bool → String → Type 0
Spaced run String.[] = Unit
Spaced run (String.◌∷◌ c s) = IsShown c × elim (is_space (code c)) [
  | true ↦ (c ≡ " ") × (run ≡ false) × Spaced true s
  | false ↦ Spaced false s
]

-- And none stands at the end.
abbrev pub Tidy : Bool → String → Type 0
Tidy run String.[] = run ≡ false
Tidy run (String.◌∷◌ c s) = IsShown c × elim (is_space (code c)) [
  | true ↦ (c ≡ " ") × (run ≡ false) × Tidy true s
  | false ↦ Tidy false s
]

-- Every character that is shown and no space but the plain one.
NoFormat : String → Type 0
NoFormat String.[] = Unit
NoFormat (String.◌∷◌ c s) = (is_format (code c) ≡ false) × NoFormat s

drop_format-NoFormat : (s : String) → NoFormat (drop_format s)
unfolding drop_format NoFormat
drop_format-NoFormat String.[] = tt
drop_format-NoFormat (String.◌∷◌ c s) = ground (arith, drop_format-NoFormat s)

blank_Shown :
    (c : Char) → is_format (code c) ≡ false → IsShown (if is_control (code c) then " " else c)
unfolding is_format is_control
blank_Shown c h = elim (Bool-cases (is_control (code c))) [
  | inl e ↦ rw e (refl, refl)
  | inr e ↦ rw e (h, e)
]

blank_control-Shown : (s : String) → NoFormat s → Shown (blank_control s)
unfolding blank_control NoFormat
blank_control-Shown String.[] h = tt
blank_control-Shown (String.◌∷◌ c s) h = (blank_Shown c h.0, blank_control-Shown s h.1)

space-IsShown : IsShown " "
unfolding is_format is_control
space-IsShown = (refl, refl)

space-is_space : is_space (code " ") ≡ true
unfolding is_space
space-is_space = refl

pub ellipsis-Tidy : (run : Bool) → Tidy run "…"
unfolding is_format is_control is_space
ellipsis-Tidy run = ((refl, refl), refl)

Spaced-cons :
    (run : Bool) (s : String) → run ≡ false → Spaced true s → Spaced run (String.◌∷◌ " " s)
Spaced-cons run s e h = (space-IsShown, rw space-is_space (refl, e, h))

Spaced-word :
    (run : Bool) (c : Char) (s : String)
    → IsShown c
    → is_space (code c) ≡ false
    → Spaced false s
    → Spaced run (String.◌∷◌ c s)
Spaced-word run c s h e k = (h, rw e k)

collapse-Spaced : (run : Bool) (s : String) → Shown s → Spaced run (collapse run s)
unfolding collapse
collapse-Spaced run String.[] h = tt
collapse-Spaced run (String.◌∷◌ c s) h = elim (Bool-cases (is_space (code c))) [
  | inr e ↦ rw e (Spaced-word run c _ h.0 e (collapse-Spaced false s h.1))
  | inl e ↦
      rw e
        (elim run
          as (λ b. Spaced b (if b then collapse true s else String.◌∷◌ " " (collapse true s))) [
            | true ↦ collapse-Spaced true s h.1
            | false ↦ Spaced-cons false _ refl (collapse-Spaced true s h.1)
          ])
]

Spaced-step :
    (run : Bool) (c : Char) (s : String)
    → Spaced run (String.◌∷◌ c s)
    → ((is_space (code c) ≡ true) × (c ≡ " ") × (run ≡ false) × Spaced true s)
      ⊎ ((is_space (code c) ≡ false) × Spaced false s)
Spaced-step run c s h = elim (Bool-cases (is_space (code c))) [
  | inl e ↦ let k = rw e at h in inl (e, k.1.0, k.1.1, k.1.2)
  | inr e ↦ let k = rw e at h in inr (e, k.1)
]

trim_start-Spaced : (run : Bool) (s : String) → Spaced run s → Spaced true (trim_start s)
unfolding trim_start
trim_start-Spaced run String.[] h = tt
trim_start-Spaced run (String.◌∷◌ c s) h = elim (Spaced-step run c s h) [
  | inl (e, _, _, k) ↦ rw e (trim_start-Spaced true s k)
  | inr (e, k) ↦ rw e (Spaced-word true c s h.0 e k)
]

pub Tidy-word :
    (run : Bool) (c : Char) (s : String)
    → IsShown c
    → is_space (code c) ≡ false
    → Tidy false s
    → Tidy run (String.◌∷◌ c s)
Tidy-word run c s h e k = (h, rw e k)

pub Tidy-space :
    (run : Bool) (c : Char) (s : String)
    → IsShown c
    → is_space (code c) ≡ true
    → c ≡ " "
    → run ≡ false
    → Tidy true s
    → Tidy run (String.◌∷◌ c s)
Tidy-space run c s h e p q k = (h, rw e (p, q, k))

pub Tidy-step :
    (run : Bool) (c : Char) (s : String)
    → Tidy run (String.◌∷◌ c s)
    → ((is_space (code c) ≡ true) × (c ≡ " ") × (run ≡ false) × Tidy true s)
      ⊎ ((is_space (code c) ≡ false) × Tidy false s)
Tidy-step run c s h = elim (Bool-cases (is_space (code c))) [
  | inl e ↦ let k = rw e at h in inl (e, k.1.0, k.1.1, k.1.2)
  | inr e ↦ let k = rw e at h in inr (e, k.1)
]

-- What is left after the trailing white space is nothing or tidy.
trim_end-Tidy : (run : Bool) (s : String) → Spaced run s → (trim_end s ≡ "") ⊎ Tidy run (trim_end s)
unfolding trim_end
trim_end-Tidy run String.[] h = inl refl
trim_end-Tidy run (String.◌∷◌ c s) h = elim (Spaced-step run c s h) [
  | inl (e, p, q, k) ↦ elim (trim_end-Tidy true s k) [
    | inl z ↦ rw (e, z) (inl refl)
    | inr t ↦ elim (Bool-cases (str_eq (trim_end s) "")) [
      | inl b ↦ rw (e, b) (inl refl)
      | inr b ↦ rw (e, b) (inr (Tidy-space run c _ h.0 e p q t))
    ]
  ]
  | inr (e, k) ↦ rw e (
      inr (
        Tidy-word run c _ h.0 e (elim (trim_end-Tidy false s k) [ inl z ↦ rw z refl | inr t ↦ t ])))
]

-- `flatten` gives nothing or tidy text.
pub flatten-Tidy : (s : String) → (flatten s ≡ "") ⊎ Tidy true (flatten s)
unfolding flatten trim
flatten-Tidy s = trim_end-Tidy true _ (
    trim_start-Spaced false _
      (collapse-Spaced false _ (blank_control-Shown _ (drop_format-NoFormat s))))
