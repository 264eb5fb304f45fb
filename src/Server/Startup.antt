-- ===== src/Server/Startup.antt =====
-- packages/server/src/startup.ts: the secret that the server needs, and the host it binds. The calls of
-- node:path and the reading of the file are parameters.
pub mod Bind
use ccctl.Base.{String, Bool, true, false, not, ◌&&◌, Option, none, some, str_eq, if◌then◌else◌}
use ccctl.Base.Texts.{trim}
use ccctl.Core.Network.{is_loopback_host}

abbrev pub default_host : String
default_host = "127.0.0.1"

-- `env[NAME]?.trim() ?? ""`
abbrev pub trimmed : Option String → String
trimmed none = ""
trimmed (some value) = trim value

module _ (is_absolute : String → Bool) (join_path : String → String → String) where
  -- The directory of the configuration is that of XDG_CONFIG_HOME, where it is an absolute path.
  unfoldable pub resolve_local_server_auth_path : Option String → String → String
  unfolding trim
  resolve_local_server_auth_path xdg_config_home home =
      let configured = trimmed xdg_config_home in
      let config_home =
        if not (str_eq configured "") && is_absolute configured
        then configured
        else join_path home ".config" in
      join_path (join_path config_home "ccctl") "local-server-auth"

  -- `none` is the refusal to start.
  unfoldable pub require_local_server_auth :
      Option String → Option String → String → (String → Option String) → Option String
  unfolding resolve_local_server_auth_path trim
  require_local_server_auth from_env xdg_config_home home read_auth_file =
      if not (str_eq (trimmed from_env) "")
      then some (trimmed from_env)
      else let from_file =
          trimmed (read_auth_file (resolve_local_server_auth_path xdg_config_home home)) in
        if not (str_eq from_file "") then some from_file else none

-- `none` is the refusal to bind.
unfoldable pub resolve_bind_host : Option String → Option String
unfolding is_loopback_host
resolve_bind_host host =
    let asked : String = elim host [ none ↦ default_host | some h ↦ h ] in
    if not (is_loopback_host asked) then none else some asked
