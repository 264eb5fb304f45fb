-- ===== src/Tunnel/Tests.antt =====
-- The theorems on packages/tunnel-adapters at a tailnet that holds one policy and takes every save.
use ccctl.Base.{
  ◌≡◌, refl, String, Bool, true, List, Option, none, some, if◌then◌else◌, str_eq, inl, inr,
}
use ccctl.Base.Dict.{Dict, get}
use ccctl.Core.Json.{Json, Fields, str, arr, obj, nil, cons, end, field, entries}
use ccctl.Core.Network.{is_loopback_host}
use ccctl.Tunnel.{
  HostEndpoint, TailscaleTunnel, create_tunnel, tunnel_status, parse_tailscale_status,
  host_of_status, establish, teardown, provision_acl, revert_acl, release, not_authenticated,
}
use ccctl.Tunnel.Policy.{
  with_grant, without_grant, deep_equal, items_equal, fields_equal, put_field, remove_field,
  remove_first_equal,
}
use ccctl.Tunnel.Policy.Equality.{HasKeys, IsKeyed}
use ccctl.Tunnel.Lifecycle.{serve_args, status_args, attempted, establish-member, establish-fails}
use ccctl.Tunnel.Restores.{Holds, establish-teardown}

abbrev reported : Json
reported = obj (
    field "BackendState" (str "Running")
      (field "Self" (obj (field "DNSName" (str "box.tail.net.") end)) end))

abbrev parse : String → Option Json
parse text = if str_eq text "{}" then some (obj end) else some reported

abbrev run : Fields → List String → Option String × Fields
run policy args = (some "status", policy)

abbrev fetch : Fields → Option (Fields × String)
fetch policy = some (policy, "tag")

abbrev save : Fields → Fields → String → Bool × Fields
save old policy etag = (true, policy)

run-fetch : (w : Fields) (args : List String) → fetch (run w args).1 ≡ fetch w
run-fetch w args = refl

save-fetch :
    (w policy : Fields) (etag : String)
    → (save w policy etag).0 ≡ true
    → (next : String) × (fetch (save w policy etag).1 ≡ some (policy, next))
save-fetch w policy etag e = ("tag", refl)

abbrev grant : Fields
grant = field "src" (arr (cons (str "*") nil)) end

abbrev policy : Fields
policy = field "hosts" (obj end) end

abbrev granted : Fields
granted = field "hosts" (obj end) (field "grants" (arr (cons (obj grant) nil)) end)

abbrev local : HostEndpoint
local = record { host = "127.0.0.1"; port = 4322 }

abbrev up : TailscaleTunnel
up = record {
  provisioning = some grant;
  served_local = some local;
  established = some "box.tail.net";
  provisioned_grant = some grant;
  created_grants_key = true;
}

establishing :
    establish parse run fetch save policy (create_tunnel (some grant)) local
    ≡ (inr "box.tail.net", granted, up)
unfolding establish is_loopback_host host_of_status provision_acl with_grant put_field get
establishing = refl

tearing : teardown parse run fetch save granted up ≡ (none, policy, create_tunnel (some grant))
unfolding teardown release revert_acl without_grant deep_equal items_equal fields_equal get
    remove_field remove_first_equal
tearing = refl

no_grants : get "grants" (entries policy) ≡ none
unfolding get
no_grants = refl

grant-IsKeyed : IsKeyed (obj grant)
unfolding IsKeyed HasKeys get
grant-IsKeyed = (refl, (tt, tt), tt)

establish-teardown_example :
    Holds parse run fetch save run-fetch save-fetch policy policy
    × (create_tunnel (some grant) ≡ create_tunnel (some grant))
establish-teardown_example =
    establish-teardown parse run fetch save run-fetch save-fetch (some grant) policy "tag" local
      "box.tail.net" policy granted policy up (create_tunnel (some grant)) (inl no_grants)
      grant-IsKeyed refl establishing tearing

establish-member_example :
    (is_loopback_host "127.0.0.1" ≡ true)
    × (stdout : String) × (o : Dict Json) × ((run (run policy (serve_args local)).1 status_args).0
        ≡ some stdout)
    × (parse_tailscale_status parse stdout ≡ inr o)
    × (get "BackendState" o ≡ some (str "Running"))
    × (host_of_status parse stdout ≡ inr "box.tail.net")
    × (tunnel_status up ≡ some "box.tail.net")
    × (up.served_local ≡ some local)
establish-member_example =
    establish-member parse run fetch save policy (create_tunnel (some grant)) local "box.tail.net"
      granted up establishing

abbrev silent : Fields → List String → Option String × Fields
silent w args = (some "{}", w)

abbrev half_up : TailscaleTunnel
half_up = record (create_tunnel none) { served_local = some local }

failing :
    establish parse silent fetch save policy (create_tunnel none) local
    ≡ (inl not_authenticated, policy, half_up)
unfolding establish is_loopback_host host_of_status get
failing = refl

establish-fails_example :
    half_up
    ≡ attempted
        (is_loopback_host local.host)
        (silent policy (serve_args local)).0
        local
        (create_tunnel none)
establish-fails_example =
    establish-fails parse silent fetch save policy (create_tunnel none) local not_authenticated
      policy half_up failing
