-- ===== src/Core/Json.antt =====
-- The values that `JSON.parse` gives, as packages/core/src/index.ts inspects them (`unknown`, then
-- `typeof`, `in`, `Array.isArray` and property reads). An object is its own properties in order, each
-- name once; none of the names that the sources read stands on `Object.prototype`.
use ccctl.Base.{
  ℕ, ◌≡◌, refl, String, Bool, true, false, List, [], ◌∷◌, Option, none, some, ◌^◌, ◌-◌,
}
use ccctl.Base.Dict.{Dict, get}

-- A number is an integer that is not negative, the integer -(n + 1), or no integer at all (a
-- fraction or an infinity; the argument tells them apart).
pub data Number : Type 0 where
  nonneg negative other : ℕ → Number

mutual
  pub data Json : Type 0 where
    null : Json
    bool : Bool → Json
    num : Number → Json
    str : String → Json
    arr : Items → Json
    obj : Fields → Json

  pub data Items : Type 0 where
    nil : Items
    cons : Json → Items → Items

  pub data Fields : Type 0 where
    end : Fields
    field : String → Json → Fields → Fields

abbrev pub items : Items → List Json
items nil = []
items (cons v vs) = v ∷ items vs

abbrev pub entries : Fields → Dict Json
entries end = []
entries (field k v fs) = (k, v) ∷ entries fs

-- `typeof v !== "object" || v === null || Array.isArray(v)` is `none`.
abbrev pub as_object : Json → Option (Dict Json)
as_object (obj fs) = some (entries fs)
as_object null = none
as_object _ = none

-- A property read that may give `undefined`, then the same test.
abbrev pub object_at : String → Dict Json → Option (Dict Json)
object_at k o = elim (get k o) [ none ↦ none | some v ↦ as_object v ]

-- `typeof v === "string"`.
abbrev pub as_string : Option Json → Option String
as_string (some (str s)) = some s
as_string (some null) = none
as_string none = none
as_string _ = none

-- `Array.isArray(v)`.
abbrev pub as_array : Option Json → Option (List Json)
as_array (some (arr vs)) = some (items vs)
as_array (some null) = none
as_array none = none
as_array _ = none

-- `Number.MAX_SAFE_INTEGER`.
abbrev pub max_safe_integer : ℕ
max_safe_integer = 2 ^ 53 - 1

infixl 5 ◌>>=◌
abbrev pub ◌>>=◌ {ℓ κ} : {A : Type ℓ} {B : Type κ} → Option A → (A → Option B) → Option B
none >>= f = none
some a >>= f = f a

abbrev pub guard : Bool → Option (Unit {0})
guard true = some tt
guard false = none

infixl 5 ◌>>◌
abbrev pub ◌>>◌ {ℓ} : {B : Type ℓ} → Option (Unit {0}) → Option B → Option B
m >> k = m >>= λ _. k

-- What a chain that succeeded has passed.
pub bind-eq-some {ℓ κ} :
    {A : Type ℓ} {B : Type κ} (m : Option A) (f : A → Option B) {b : B}
    → (m >>= f) ≡ some b
    → (a : A) × (m ≡ some a) × (f a ≡ some b)
bind-eq-some none f e = cc
bind-eq-some (some a) f e = (a, refl, e)

pub guard-eq-some {ℓ} :
    {B : Type ℓ} (test : Bool) (k : Option B) {b : B}
    → (guard test >> k) ≡ some b
    → (test ≡ true) × (k ≡ some b)
guard-eq-some true k e = (refl, e)
guard-eq-some false k e = cc

pub unsome {ℓ} : {A : Type ℓ} {a b : A} → some a ≡ some b → a ≡ b
unsome e = cc
