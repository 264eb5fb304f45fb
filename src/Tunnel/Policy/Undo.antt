-- ===== src/Tunnel/Policy/Undo.antt =====
-- Taking a grant out of the policy undoes adding it, in packages/tunnel-adapters/src/index.ts.
use native.Mathlib.Omega.{arith}
use mathlib.Core.Logic.{◌⊎◌, inl, inr}
use ccctl.Base.{
  ◌≡◌, refl, ap, ap₂, sym, ◌∙◌, String, Bool, true, false, List, [], ◌∷◌, ◌++◌, none, some, any,
  str_eq, eq_refl, Bool-cases,
}
use ccctl.Base.Dict.{get}
use ccctl.Core.Json.{Json, Items, Fields, arr, obj, nil, cons, end, field, items, entries, unsome}
use ccctl.Tunnel.Policy.{
  deep_equal, put_field, remove_field, items_of, remove_first_equal, with_grant, without_grant,
  save_policy,
}
use ccctl.Tunnel.Policy.Equality.{IsKeyed, deep_equal_self}

items-items_of : (l : List Json) → items (items_of l) ≡ l
items-items_of [] = refl
items-items_of (v ∷ l) = ap (λ r. v ∷ r) (items-items_of l)

items_of-items : (vs : Items) → items_of (items vs) ≡ vs
items_of-items nil = refl
items_of-items (cons v vs) = ap (cons v) (items_of-items vs)

get-put_field :
    (key : String) (v : Json) (fs : Fields) → get key (entries (put_field key v fs)) ≡ some v
unfolding get put_field
get-put_field key v end = rw (eq_refl key) refl
get-put_field key v (field k w more) = elim (Bool-cases (str_eq k key)) [
  | inl e ↦ rw (e, e) refl
  | inr e ↦ rw (e, e) (get-put_field key v more)
]

put_field-put_field :
    (key : String) (v w : Json) (fs : Fields)
    → get key (entries fs) ≡ some v
    → put_field key v (put_field key w fs) ≡ fs
unfolding get put_field
put_field-put_field key v w end e = absurd (cc e)
put_field-put_field key v w (field k u more) e = elim (Bool-cases (str_eq k key)) [
  | inl s ↦ let same = unsome (rw s at e) in rw (s, s) (ap (λ x. field k x more) (sym same))
  | inr s ↦ rw (s, s) (ap (field k u) (put_field-put_field key v w more (rw s at e)))
]

remove_field-put_field :
    (key : String) (w : Json) (fs : Fields)
    → get key (entries fs) ≡ none
    → remove_field key (put_field key w fs) ≡ fs
unfolding get put_field remove_field
remove_field-put_field key w end e = rw (eq_refl key) refl
remove_field-put_field key w (field k u more) e = elim (Bool-cases (str_eq k key)) [
  | inl s ↦ absurd (let no = rw s at e in cc no)
  | inr s ↦ rw (s, s) (ap (field k u) (remove_field-put_field key w more (rw s at e)))
]

remove-last :
    (vs : List Json) (g : Json)
    → any (λ item. deep_equal item g) vs ≡ false
    → deep_equal g g ≡ true
    → remove_first_equal (vs ++ g ∷ []) g ≡ (vs, true)
unfolding remove_first_equal
remove-last [] g new same = rw same refl
remove-last (v ∷ vs) g new same =
    let here : deep_equal v g ≡ false = ground arith in
    let rest = remove-last vs g (ground arith) same in rw (here, rest) refl

-- The policy has no `grants`, or an array.
abbrev pub HasGrants : Fields → Type 0
HasGrants policy =
    (get "grants" (entries policy) ≡ none)
    ⊎ ((vs : Items) × (get "grants" (entries policy) ≡ some (arr vs)))

-- The one grant under a new key goes with the key; the last of several goes alone.
undo-only :
    (policy grant : Fields)
    → get "grants" (entries policy) ≡ none
    → deep_equal (obj grant) (obj grant) ≡ true
    → without_grant (put_field "grants" (arr (cons (obj grant) nil)) policy) grant true
      ≡ save_policy policy
unfolding without_grant remove_first_equal
undo-only policy grant absent same =
    let only = arr (cons (obj grant) nil) in
    rw (get-put_field "grants" only policy, same, without_grant)
      (ap save_policy (remove_field-put_field "grants" only policy absent))

undo-last :
    (policy grant : Fields) (vs : Items)
    → get "grants" (entries policy) ≡ some (arr vs)
    → any (λ item. deep_equal item (obj grant)) (items vs) ≡ false
    → deep_equal (obj grant) (obj grant) ≡ true
    → without_grant
        (put_field "grants" (arr (items_of (items vs ++ obj grant ∷ []))) policy)
        grant
        false
      ≡ save_policy policy
unfolding without_grant
undo-last policy grant vs there new same =
    let longer = items vs ++ obj grant ∷ [] in
    rw
      (
        get-put_field "grants" (arr (items_of longer)) policy,
        items-items_of longer,
        remove-last (items vs) (obj grant) new same,
        items_of-items vs,
        without_grant,
      )
      (ap save_policy (put_field-put_field "grants" (arr vs) (arr (items_of longer)) policy there))

-- A grant that was added to a policy is taken out again so that the policy is as it was before, to the order of
-- its keys, and with no key `grants` if it had none.
pub without-with :
    (policy grant next : Fields) (created : Bool)
    → HasGrants policy
    → IsKeyed (obj grant)
    → with_grant policy grant ≡ some (next, created)
    → without_grant next grant created ≡ save_policy policy
unfolding with_grant
without-with policy grant next created (inl absent) keyed e =
    let pair = unsome (rw (absent, with_grant) at e) in
    ap₂ (λ n c. without_grant n grant c) (sym (ap (λ x. x.0) pair)) (sym (ap (λ x. x.1) pair))
    ∙ undo-only policy grant absent (deep_equal_self (obj grant) keyed)
without-with policy grant next created (inr (vs, there)) keyed e =
    elim (Bool-cases (any (λ item. deep_equal item (obj grant)) (items vs))) [
      | inl known ↦ absurd (let no = rw (there, known, with_grant) at e in cc no)
      | inr new ↦
          let pair = unsome (rw (there, new, with_grant) at e) in
          ap₂ (λ n c. without_grant n grant c) (sym (ap (λ x. x.0) pair)) (sym (ap (λ x. x.1) pair))
          ∙ undo-last policy grant vs there new (deep_equal_self (obj grant) keyed)
    ]
