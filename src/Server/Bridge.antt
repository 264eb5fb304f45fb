-- ===== src/Server/Bridge.antt =====
-- packages/server/src/bridge-wire.ts and the work items of packages/core/src/index.ts: the bodies that a
-- bridge sends to the server and the work it is given, as JSON.
pub mod WorkItems
use ccctl.Base.{
  ℕ, suc, ◌≡◌, ◌≢◌, refl, inl, inr, ◌⊎◌, String, Bool, true, false, not, ◌&&◌, ◌||◌, ◌==◌, Option,
  none, some, str_eq, if◌then◌else◌, Bool-cases, str_eq_ne,
}
use ccctl.Base.Dict.{Dict, get}
use ccctl.Core.Json.{
  Json, Number, nonneg, null, num, str, obj, Fields, end, field, as_object, as_string, object_at,
  ◌>>=◌, ◌>>◌, guard,
}
use ccctl.Core.Mode.{permission_mode_of, mode_name, permission_mode_of-mode_name}
use ccctl.Core.Session.{PermissionMode}

-- `typeof v === "string" && v !== ""`.
abbrev pub filled : Option Json → Option String
filled v = do s ← as_string v; guard (not (str_eq s "")); some s

pub record SessionCreateRequestBody : Type 0 where
  pub model : String
  pub cwd : String
  pub source : String
  pub permission_mode : PermissionMode

unfoldable pub parse_session_create_body : Json → Option SessionCreateRequestBody
unfolding permission_mode_of
parse_session_create_body value = do
  o ← as_object value
  source ← filled (get "source" o)
  name ← as_string (get "permission_mode" o)
  mode ← permission_mode_of name
  context ← object_at "session_context" o
  model ← filled (get "model" context)
  cwd ← filled (get "cwd" context)
  some (record { model = model; cwd = cwd; source = source; permission_mode = mode })

-- `Number.isInteger(value) && value > 0`.
unfoldable pub positive_integer : Option Json → Option ℕ
positive_integer (some (num (nonneg (suc n)))) = some (suc n)
positive_integer (some null) = none
positive_integer none = none
positive_integer _ = none

-- `isNullableString`: the inner option is the value, `null` or a string.
unfoldable pub nullable_string : Option Json → Option (Option String)
nullable_string (some null) = some none
nullable_string (some (str s)) = some (some s)
nullable_string none = none
nullable_string _ = none

pub record EnvironmentRegisterRequestBody : Type 0 where
  pub machine_name : String
  pub directory : String
  pub branch : String
  pub git_repo_url : Option String
  pub max_sessions : ℕ
  pub metadata : Dict Json

unfoldable pub parse_environment_register_body : Json → Option EnvironmentRegisterRequestBody
unfolding positive_integer nullable_string
parse_environment_register_body value = do
  o ← as_object value
  machine_name ← filled (get "machine_name" o)
  directory ← as_string (get "directory" o)
  branch ← as_string (get "branch" o)
  git_repo_url ← nullable_string (get "git_repo_url" o)
  max_sessions ← positive_integer (get "max_sessions" o)
  metadata ← object_at "metadata" o
  some (record {
    machine_name = machine_name;
    directory = directory;
    branch = branch;
    git_repo_url = git_repo_url;
    max_sessions = max_sessions;
    metadata = metadata;
  })

pub data WorkItemType : Type 0 where
  healthcheck session : WorkItemType

pub record WorkItemData : Type 0 where
  pub type : WorkItemType
  pub id : Option String

pub record WorkItem : Type 0 where
  pub id : String
  pub secret : String
  pub data_ : WorkItemData

-- `isWorkItemType`, as a parser of the type's name.
unfoldable pub work_item_type_of : String → Option WorkItemType
work_item_type_of s =
    if str_eq s "healthcheck"
    then some healthcheck
    else if str_eq s "session"
    then some session
    else none

abbrev pub type_name : WorkItemType → String
type_name healthcheck = "healthcheck"
type_name session = "session"

-- The id of a work item's data: a session needs one, another item may leave it out.
unfoldable pub data_id_from : WorkItemType → Option Json → Option (Option String)
data_id_from session id = filled id >>= λ s. some (some s)
data_id_from healthcheck none = some none
data_id_from healthcheck (some v) = filled (some v) >>= λ s. some (some s)

unfoldable pub work_item_from_value : Json → Option WorkItem
unfolding work_item_type_of data_id_from
work_item_from_value value = do
  o ← as_object value
  id ← filled (get "id" o)
  secret ← filled (get "secret" o)
  d ← object_at "data" o
  name ← as_string (get "type" d)
  type ← work_item_type_of name
  data_id ← data_id_from type (get "id" d)
  some (record { id = id; secret = secret; data_ = record { type = type; id = data_id } })

unfoldable pub to_work_item_wire : WorkItem → Json
to_work_item_wire item =
    let rest : Fields = elim item.data_.id [ none ↦ end | some id ↦ field "id" (str id) end ] in
    obj (
      field "id" (str item.id) (
        field "secret" (str item.secret)
          (field "data" (obj (field "type" (str (type_name item.data_.type)) rest)) end)))

abbrev pub work_secret_version : ℕ
work_secret_version = 1

pub record WorkSecret : Type 0 where
  pub session_ingress_token : String
  pub api_base_url : String

abbrev is_version : Option Json → ℕ → Bool
is_version (some (num (nonneg n))) v = n == v
is_version (some null) v = false
is_version none v = false
is_version _ v = false

unfoldable pub parse_work_secret : Json → Option WorkSecret
parse_work_secret value = do
  o ← as_object value
  guard (is_version (get "version" o) work_secret_version)
  token ← filled (get "session_ingress_token" o)
  base ← filled (get "api_base_url" o)
  some (record { session_ingress_token = token; api_base_url = base })
