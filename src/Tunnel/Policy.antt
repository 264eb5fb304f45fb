-- ===== src/Tunnel/Policy.antt =====
-- The policy of a tailnet as packages/tunnel-adapters/src/index.ts edits it: a grant added, a grant taken out, and the
-- equality of JSON values that finds it.
pub mod Equality
pub mod Undo
use ccctl.Base.{
  ℕ, String, Bool, true, false, ◌&&◌, List, [], ◌∷◌, ◌++◌, Option, none, some, str_eq, ◌==◌, any,
  length, if◌then◌else◌,
}
use ccctl.Base.Dict.{get}
use ccctl.Core.Json.{
  Json, Number, nonneg, negative, other, Items, Fields, null, bool, num, str, arr, obj, nil, cons,
  end, field, items, entries, as_array,
}

abbrev pub number_eq : Number → Number → Bool
number_eq (nonneg a) (nonneg b) = a == b
number_eq (negative a) (negative b) = a == b
number_eq (other a) (other b) = a == b
number_eq _ _ = false

abbrev pub bool_eq : Bool → Bool → Bool
bool_eq true b = b
bool_eq false true = false
bool_eq false false = true

-- Two arrays of one length, or an object against another of as many keys.
unfoldable mutual
  pub deep_equal : Json → Json → Bool
  deep_equal null null = true
  deep_equal (bool a) (bool b) = bool_eq a b
  deep_equal (num a) (num b) = number_eq a b
  deep_equal (str a) (str b) = str_eq a b
  deep_equal (arr a) (arr b) = length (items a) == length (items b) && items_equal a b
  deep_equal (obj a) (obj b) = length (entries a) == length (entries b) && fields_equal a b
  deep_equal _ _ = false

  pub items_equal : Items → Items → Bool
  items_equal nil b = true
  items_equal (cons v vs) nil = false
  items_equal (cons v vs) (cons w ws) = deep_equal v w && items_equal vs ws

  pub fields_equal : Fields → Fields → Bool
  fields_equal end b = true
  fields_equal (field k v more) b =
      (elim (get k (entries b)) [ none ↦ false | some w ↦ deep_equal v w ]) && fields_equal more b

-- `{ ...fields, key: value }`, and `delete fields[key]`.
unfoldable pub put_field : String → Json → Fields → Fields
put_field key value end = field key value end
put_field key value (field k v more) =
    if str_eq k key then field k value more else field k v (put_field key value more)

unfoldable pub remove_field : String → Fields → Fields
remove_field key end = end
remove_field key (field k v more) =
    if str_eq k key then remove_field key more else field k v (remove_field key more)

abbrev pub items_of : List Json → Items
items_of [] = nil
items_of (v ∷ vs) = cons v (items_of vs)

-- The array without the first equal item, and whether there was one.
unfoldable pub remove_first_equal : List Json → Json → List Json × Bool
unfolding deep_equal
remove_first_equal [] target = ([], false)
remove_first_equal (v ∷ vs) target =
    if deep_equal v target
    then (vs, true)
    else let (rest, removed) = remove_first_equal vs target in (v ∷ rest, removed)

abbrev pub no_items : List Json → Bool
no_items [] = true
no_items (v ∷ vs) = false

-- The policy with the grant at the end, and whether the key `grants` is new; none if it is granted already.
unfoldable pub with_grant : Fields → Fields → Option (Fields × Bool)
unfolding deep_equal put_field
with_grant policy grant = elim (as_array (get "grants" (entries policy))) [
  | none ↦ some (put_field "grants" (arr (items_of (obj grant ∷ []))) policy, true)
  | some current ↦
      if any (λ item. deep_equal item (obj grant)) current
      then none
      else some (put_field "grants" (arr (items_of (current ++ obj grant ∷ []))) policy, false)
]

pub data Removal : Type 0 where
  keep_policy : Removal
  save_policy : Fields → Removal

-- The policy to save without the grant, or none to save if it is not there.
unfoldable pub without_grant : Fields → Fields → Bool → Removal
unfolding remove_first_equal put_field remove_field
without_grant policy provisioned created = elim (as_array (get "grants" (entries policy))) [
  | none ↦ keep_policy
  | some existing ↦
      let (result, removed) = remove_first_equal existing (obj provisioned) in
      if removed
      then save_policy (
          if created && no_items result
          then remove_field "grants" policy
          else put_field "grants" (arr (items_of result)) policy)
      else keep_policy
]
