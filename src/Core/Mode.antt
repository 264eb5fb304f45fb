-- ===== src/Core/Mode.antt =====
-- The permission modes of packages/core/src/index.ts and their names on the wire.
use ccctl.Base.{String, Option, some, none, str_eq, ◌≡◌, refl, if◌then◌else◌}
use ccctl.Core.Session.{
  PermissionMode, default, accept_edits, bypass_permissions, plan, dont_ask, auto,
}

unfoldable pub mode_name : PermissionMode → String
mode_name default = "default"
mode_name accept_edits = "acceptEdits"
mode_name bypass_permissions = "bypassPermissions"
mode_name plan = "plan"
mode_name dont_ask = "dontAsk"
mode_name auto = "auto"

-- `isPermissionMode`, as a parser of the mode's name.
unfoldable pub permission_mode_of : String → Option PermissionMode
permission_mode_of s =
    if str_eq s "default"
    then some default
    else if str_eq s "acceptEdits"
    then some accept_edits
    else if str_eq s "bypassPermissions"
    then some bypass_permissions
    else if str_eq s "plan"
    then some plan
    else if str_eq s "dontAsk"
    then some dont_ask
    else if str_eq s "auto"
    then some auto
    else none

pub permission_mode_of-mode_name : (m : PermissionMode) → permission_mode_of (mode_name m) ≡ some m
unfolding permission_mode_of mode_name
permission_mode_of-mode_name default = refl
permission_mode_of-mode_name accept_edits = refl
permission_mode_of-mode_name bypass_permissions = refl
permission_mode_of-mode_name plan = refl
permission_mode_of-mode_name dont_ask = refl
permission_mode_of-mode_name auto = refl
