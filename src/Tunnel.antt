-- ===== src/Tunnel.antt =====
-- packages/tunnel-adapters/src/index.ts: the Tailscale tunnel. The `tailscale` command and the API of the tailnet's policy are
-- outside: calls of them are parameters on a state of the world, which each call may change.
pub mod Policy
pub mod Lifecycle
pub mod Restores
pub mod Tests
use Prim.Native.String.{◌++◌ as ◌+++◌}
use mathlib.Core.Logic.{◌⊎◌, inl, inr}
use ccctl.Base.{
  ℕ, String, Bool, true, false, not, List, [], ◌∷◌, Option, none, some, str_eq, if◌then◌else◌,
}
use ccctl.Base.Dict.{Dict, get}
use ccctl.Base.Texts.{trim}
use ccctl.Core.Json.{
  Json, Fields, Items, null, str, arr, obj, entries, items, as_object, as_string, as_array,
}
use ccctl.Core.Network.{is_loopback_host, format_authority}
use ccctl.Tunnel.Policy.{with_grant, without_grant, Removal, keep_policy, save_policy}

pub record HostEndpoint : Type 0 where
  pub host : String
  pub port : ℕ

pub data TunnelError : Type 0 where
  not_loopback serve_failed status_failed not_json not_an_object not_authenticated no_self
        self_not_an_object no_host fetch_failed save_failed release_failed :
      TunnelError

-- `kind` is always `tailscale`.
pub record TailscaleTunnel : Type 0 where
  pub provisioning : Option Fields
  pub served_local : Option HostEndpoint
  pub established : Option String
  pub provisioned_grant : Option Fields
  pub created_grants_key : Bool

abbrev pub create_tunnel : Option Fields → TailscaleTunnel
create_tunnel provisioning = record {
  provisioning = provisioning;
  served_local = none;
  established = none;
  provisioned_grant = none;
  created_grants_key = false;
}

-- The public host of a tunnel that is up.
unfoldable pub tunnel_status : TailscaleTunnel → Option String
tunnel_status t = t.established

unfoldable pub adopt : TailscaleTunnel → HostEndpoint → TailscaleTunnel
adopt t local = record t {
  served_local = some local;
  provisioned_grant = t.provisioning;
  created_grants_key = false;
}

unfoldable pub serve_target : HostEndpoint → String
unfolding format_authority
serve_target local = "http://" +++ format_authority local.host local.port

unfoldable pub parse_tailscale_status : (String → Option Json) → String → TunnelError ⊎ Dict Json
parse_tailscale_status parse stdout = elim (parse stdout) [
  | none ↦ inl not_json
  | some value ↦ elim (as_object value) [ none ↦ inl not_an_object | some o ↦ inr o ]
]

unfoldable pub is_tailnet_member : Dict Json → Bool
is_tailnet_member o = elim (as_string (get "BackendState" o)) [
  | none ↦ false
  | some reported ↦ str_eq reported "Running"
]

-- An array is an object whose `DNSName` and `TailscaleIPs` are undefined.
abbrev pub self_of : Json → TunnelError ⊎ Dict Json
self_of (obj o) = inr (entries o)
self_of (arr vs) = inr []
self_of null = inl self_not_an_object
self_of _ = inl self_not_an_object

unfoldable pub self_from_status : Dict Json → TunnelError ⊎ Dict Json
self_from_status o = elim (get "Self" o) [ none ↦ inl no_self | some self ↦ self_of self ]

-- `replace(/\.$/, "")`
abbrev pub without_last_dot : String → String
without_last_dot String.[] = ""
without_last_dot (String.◌∷◌ c s) =
    let rest = without_last_dot s in if str_eq (String.◌∷◌ c s) "." then "" else String.◌∷◌ c rest

abbrev pub is_filled : Option Json → Option String
is_filled v = elim (as_string v) [
  | none ↦ none
  | some s ↦ if str_eq (trim s) "" then none else some s
]

abbrev pub first_filled : List Json → Option String
first_filled [] = none
first_filled (v ∷ vs) = elim (is_filled (some v)) [ none ↦ first_filled vs | some s ↦ some s ]

unfoldable pub tailnet_host_from_self : Dict Json → Option String
unfolding trim
tailnet_host_from_self self = elim (is_filled (get "DNSName" self)) [
  | some name ↦ some (without_last_dot (trim name))
  | none ↦ elim (as_array (get "TailscaleIPs" self)) [ none ↦ none | some ips ↦ first_filled ips ]
]

-- What `tailscale status --json` says: the host under which the tunnel is reached.
unfoldable pub host_of_status : (String → Option Json) → String → TunnelError ⊎ String
unfolding parse_tailscale_status is_tailnet_member self_from_status tailnet_host_from_self
host_of_status parse stdout = elim (parse_tailscale_status parse stdout) [
  | inl error ↦ inl error
  | inr o ↦ if not (is_tailnet_member o) then inl not_authenticated else elim (self_from_status o) [
    | inl error ↦ inl error
    | inr self ↦ elim (tailnet_host_from_self self) [ none ↦ inl no_host | some host ↦ inr host ]
  ]
]

-- `run` gives the standard output, or none for a command that fails; `fetch` the policy and its tag; `save` whether the
-- policy was taken.
module _ {World : Type 0} (parse : String → Option Json)
    (run : World → List String → Option String × World) (fetch : World → Option (Fields × String))
    (save : World → Fields → String → Bool × World) where
  unfoldable pub provision_acl :
      World → TailscaleTunnel → Fields → Option TunnelError × World × TailscaleTunnel
  provision_acl w t grant = elim (fetch w) [
    | none ↦ (some fetch_failed, w, t)
    | some (policy, etag) ↦ elim (with_grant policy grant) [
      | none ↦ (none, w, t)
      | some (next, created) ↦
          let (saved, w') = save w next etag in
          if not saved
          then (some save_failed, w', t)
          else (none, w', record t { provisioned_grant = some grant; created_grants_key = created })
    ]
  ]

  unfoldable pub revert_acl :
      World → TailscaleTunnel → Fields → Option TunnelError × World × TailscaleTunnel
  revert_acl w t provisioned =
      let done : TailscaleTunnel = record t {
        provisioned_grant = none;
        created_grants_key = false;
      } in
      elim (fetch w) [
        | none ↦ (some fetch_failed, w, t)
        | some (policy, etag) ↦ elim (without_grant policy provisioned t.created_grants_key) [
          | keep_policy ↦ (none, w, done)
          | save_policy next ↦
              let (saved, w') = save w next etag in
              if not saved then (some save_failed, w', t) else (none, w', done)
        ]
      ]

  -- What is left of `establish` once the host is known.
  abbrev pub provision :
      Option Fields → World → TailscaleTunnel → Option TunnelError × World × TailscaleTunnel
  provision none w t = (none, w, t)
  provision (some grant) w t = provision_acl w t grant

  abbrev pub finish_establish :
      String
      → Option TunnelError × World × TailscaleTunnel
      → (TunnelError ⊎ String) × World × TailscaleTunnel
  finish_establish host (some error, w, t) = (inl error, w, t)
  finish_establish host (none, w, t) = (inr host, w, record t { established = some host })

  unfoldable pub establish :
      World → TailscaleTunnel → HostEndpoint → (TunnelError ⊎ String) × World × TailscaleTunnel
  unfolding host_of_status provision_acl
  establish w t local =
      if not (is_loopback_host local.host)
      then (inl not_loopback, w, t)
      else let (out, w1) = run w ("serve" ∷ "--bg" ∷ serve_target local ∷ []) in
        elim out [
          | none ↦ (inl serve_failed, w1, t)
          | some _ ↦
              let served : TailscaleTunnel = record t { served_local = some local } in
              let (out, w2) = run w1 ("status" ∷ "--json" ∷ []) in
              elim out [
                | none ↦ (inl status_failed, w2, served)
                | some stdout ↦ elim (host_of_status parse stdout) [
                  | inl error ↦ (inl error, w2, served)
                  | inr host ↦ finish_establish host (provision t.provisioning w2 served)
                ]
              ]
        ]

  -- The grant is reverted first, and only if the tunnel has put one there.
  abbrev pub revert :
      Option Fields
      → Option Fields
      → World
      → TailscaleTunnel
      → Option TunnelError × World × TailscaleTunnel
  revert none provisioning w t = (none, w, t)
  revert (some provisioned) none w t = (none, w, t)
  revert (some provisioned) (some grant) w t = revert_acl w t provisioned

  unfoldable pub release :
      Option HostEndpoint → World → TailscaleTunnel → Option TunnelError × World × TailscaleTunnel
  release none w t = (none, w, t)
  release (some served) w t =
      let (out, w') = run w ("serve" ∷ "--bg" ∷ serve_target served ∷ "off" ∷ []) in
      elim out [
        | none ↦ (some release_failed, w', t)
        | some _ ↦ (none, w', record t { served_local = none; established = none })
      ]

  abbrev pub finish_teardown :
      Option TunnelError × World × TailscaleTunnel → Option TunnelError × World × TailscaleTunnel
  finish_teardown (some error, w, t) = (some error, w, t)
  finish_teardown (none, w, t) = release t.served_local w t

  -- The error, or none.
  unfoldable pub teardown : World → TailscaleTunnel → Option TunnelError × World × TailscaleTunnel
  unfolding revert_acl release
  teardown w t = finish_teardown (revert t.provisioned_grant t.provisioning w t)
