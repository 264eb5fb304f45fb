-- ===== src/Server/Bridge/WorkItems.antt =====
-- The work items of packages/server/src/bridge-wire.ts, as packages/core/src/index.ts reads them back.
use native.Mathlib.Omega.{arith}
use ccctl.Base.{
  ◌≡◌, ◌≢◌, refl, ◌∙◌, subst, String, true, not, Option, none, some, str_eq, str_eq_ne, eq_iff,
}
use ccctl.Base.Dict.{get}
use ccctl.Core.Json.{
  Json, str, as_object, as_string, object_at, bind-eq-some, guard-eq-some, unsome,
}
use ccctl.Server.Bridge.{
  filled, WorkItem, WorkItemType, healthcheck, session, work_item_type_of, data_id_from,
  work_item_from_value, to_work_item_wire,
}

-- An id that is not blank; a healthcheck may have none.
abbrev pub IsTagged : WorkItemType → Option String → Type 0
IsTagged session none = ⊥
IsTagged healthcheck none = Unit
IsTagged t (some id) = id ≢ ""

abbrev pub IsValid : WorkItem → Type 0
IsValid item = (item.id ≢ "") × (item.secret ≢ "") × IsTagged item.data_.type item.data_.id

filled-str : (s : String) → s ≢ "" → filled (some (str s)) ≡ some s
filled-str s h = rw (str_eq_ne s "" h) refl

filled-some : (v : Option Json) (s : String) → filled v ≡ some s → s ≢ ""
filled-some v s e p =
    let (a, _, k) = bind-eq-some (as_string v) _ e in
    let (t, u) = guard-eq-some (not (str_eq a "")) (some a) k in
    let same : str_eq a "" ≡ true = (eq_iff a "").1 (unsome u ∙ p) in ground arith

data_id_from-Tagged :
    (t : WorkItemType) (v : Option Json) (i : Option String)
    → data_id_from t v ≡ some i
    → IsTagged t i
unfolding data_id_from
data_id_from-Tagged session v none e = let (s, _, k) = bind-eq-some (filled v) _ e in cc (unsome k)
data_id_from-Tagged session v (some i) e =
    let (s, f, k) = bind-eq-some (filled v) _ e in rw (unsome (unsome k)) at (filled-some v s f)
data_id_from-Tagged healthcheck v none e = tt
data_id_from-Tagged healthcheck none (some i) e = cc
data_id_from-Tagged healthcheck (some v) (some i) e =
    let (s, f, k) = bind-eq-some (filled (some v)) _ e in
    rw (unsome (unsome k)) at (filled-some (some v) s f)

-- What is read from any JSON value is a valid item: its id and its secret are not blank, and it names a
-- session by an id that is not blank, which only a healthcheck may leave out.
pub work_item_from_value-IsValid :
    (v : Json) (item : WorkItem) → work_item_from_value v ≡ some item → IsValid item
unfolding work_item_from_value
work_item_from_value-IsValid v item e =
    let (o, _, e1) = bind-eq-some (as_object v) _ e in
    let (id, i, e2) = bind-eq-some (filled (get "id" o)) _ e1 in
    let (secret, s, e3) = bind-eq-some (filled (get "secret" o)) _ e2 in
    let (d, _, e4) = bind-eq-some (object_at "data" o) _ e3 in
    let (name, _, e5) = bind-eq-some (as_string (get "type" d)) _ e4 in
    let (type, _, e6) = bind-eq-some (work_item_type_of name) _ e5 in
    let (data_id, t, e7) = bind-eq-some (data_id_from type (get "id" d)) _ e6 in
    subst IsValid (unsome e7) (
      filled-some (get "id" o) id i,
      filled-some (get "secret" o) secret s,
      data_id_from-Tagged type (get "id" d) data_id t,
    )

components-roundtrip :
    (id secret : String) (type : WorkItemType) (tag : Option String)
    → IsValid (record { id = id; secret = secret; data_ = record { type = type; id = tag } })
    → work_item_from_value (
        to_work_item_wire
          (record { id = id; secret = secret; data_ = record { type = type; id = tag } }))
      ≡ some (record { id = id; secret = secret; data_ = record { type = type; id = tag } })
unfolding work_item_from_value to_work_item_wire get data_id_from work_item_type_of
components-roundtrip id secret session none v = absurd v.2
components-roundtrip id secret healthcheck none v =
    rw (filled-str id v.0, filled-str secret v.1) refl
components-roundtrip id secret session (some t) v =
    rw (filled-str id v.0, filled-str secret v.1, filled-str t v.2) refl
components-roundtrip id secret healthcheck (some t) v =
    rw (filled-str id v.0, filled-str secret v.1, filled-str t v.2) refl

-- A valid item is read back from its wire form as it was.
pub work_item-roundtrip :
    (item : WorkItem) → IsValid item → work_item_from_value (to_work_item_wire item) ≡ some item
work_item-roundtrip item v =
    components-roundtrip item.id item.secret item.data_.type item.data_.id v
