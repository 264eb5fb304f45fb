-- ===== src/Tunnel/Policy/Equality.antt =====
-- `deepEqual` of packages/tunnel-adapters/src/index.ts finds a value equal to itself.
use native.Mathlib.Omega.{arith}
use ccctl.Base.{
  ℕ, ◌≡◌, refl, String, Bool, true, false, none, some, str_eq, eq_refl, str_eq_ne, ◌==◌, length,
}
use ccctl.Base.Dict.{get}
use ccctl.Core.Json.{
  Json, Number, nonneg, negative, other, Items, Fields, null, bool, num, str, arr, obj, nil, cons,
  end, field, items, entries,
}
use ccctl.Tunnel.Policy.{number_eq, bool_eq, deep_equal, items_equal, fields_equal}

-- No object in the value names a key twice.
unfoldable mutual
  pub IsKeyed : Json → Type 0
  IsKeyed (arr vs) = AreKeyed vs
  IsKeyed (obj fs) = HasKeys fs
  IsKeyed null = Unit {0}
  IsKeyed (bool b) = Unit {0}
  IsKeyed (num n) = Unit {0}
  IsKeyed (str s) = Unit {0}

  pub AreKeyed : Items → Type 0
  AreKeyed nil = Unit {0}
  AreKeyed (cons v vs) = IsKeyed v × AreKeyed vs

  pub HasKeys : Fields → Type 0
  HasKeys end = Unit {0}
  HasKeys (field k v more) = (get k (entries more) ≡ none) × IsKeyed v × HasKeys more

-- Each field of the first is what the second has under its key.
abbrev Lies : Fields → Fields → Type 0
Lies end b = Unit {0}
Lies (field k v more) b = (get k (entries b) ≡ some v) × Lies more b

present_ne :
    (k j : String) (fs : Fields) {v : Json}
    → get k (entries fs) ≡ none
    → get j (entries fs) ≡ some v
    → str_eq k j ≡ false
present_ne k j fs e f = str_eq_ne k j (λ same. let no = rw same at e in cc)

Lies-field :
    (k : String) (v : Json) (b more : Fields)
    → get k (entries b) ≡ none
    → Lies more b
    → Lies more (field k v b)
unfolding get
Lies-field k v b end new h = tt
Lies-field k v b (field j w more) new h =
    (rw (present_ne k j b new h.0) h.0, Lies-field k v b more new h.1)

Lies-self : (fs : Fields) → HasKeys fs → Lies fs fs
unfolding HasKeys get
Lies-self end h = tt
Lies-self (field k v more) h =
    (rw (eq_refl k) refl, Lies-field k v more more h.0 (Lies-self more h.2))

number_eq_self : (n : Number) → number_eq n n ≡ true
number_eq_self (nonneg a) = ground arith
number_eq_self (negative a) = ground arith
number_eq_self (other a) = ground arith

bool_eq_self : (b : Bool) → bool_eq b b ≡ true
bool_eq_self true = refl
bool_eq_self false = refl

same_size : (n : ℕ) → (n == n) ≡ true
same_size n = ground arith

mutual
  unfolding deep_equal items_equal fields_equal IsKeyed AreKeyed HasKeys

  pub deep_equal_self : (v : Json) → IsKeyed v → deep_equal v v ≡ true
  deep_equal_self null h = refl
  deep_equal_self (bool b) h = bool_eq_self b
  deep_equal_self (num n) h = number_eq_self n
  deep_equal_self (str s) h = eq_refl s
  deep_equal_self (arr vs) h = rw (same_size (length (items vs)), items_equal_self vs h) refl
  deep_equal_self (obj fs) h =
      rw (same_size (length (entries fs)), fields_equal-Lies fs fs h (Lies-self fs h)) refl

  items_equal_self : (vs : Items) → AreKeyed vs → items_equal vs vs ≡ true
  items_equal_self nil h = refl
  items_equal_self (cons v vs) h = rw (deep_equal_self v h.0, items_equal_self vs h.1) refl

  fields_equal-Lies : (fs b : Fields) → HasKeys fs → Lies fs b → fields_equal fs b ≡ true
  fields_equal-Lies end b h l = refl
  fields_equal-Lies (field k v more) b h l =
      rw (l.0, deep_equal_self v h.1, fields_equal-Lies more b h.2 l.1) refl
