-- ===== src/Tunnel/Lifecycle.antt =====
-- When the tunnel of packages/tunnel-adapters/src/index.ts is up, and what a call that fails leaves.
use native.Mathlib.Omega.{arith}
use mathlib.Core.Logic.{◌⊎◌, inl, inr}
use ccctl.Base.{
  ◌≡◌, refl, ap, sym, ◌∙◌, String, Bool, true, false, List, [], ◌∷◌, Option, none, some, Bool-cases,
  Option-cases, str_eq, eq_iff,
}
use ccctl.Base.Dict.{Dict, get}
use ccctl.Core.Json.{Json, Fields, null, bool, num, str, arr, obj, as_string}
use ccctl.Core.Network.{is_loopback_host}
use ccctl.Tunnel.{
  HostEndpoint, TunnelError, TailscaleTunnel, serve_target, parse_tailscale_status,
  is_tailnet_member, host_of_status, tunnel_status, provision_acl, provision, finish_establish,
  establish,
}

abbrev pub serve_args : HostEndpoint → List String
serve_args local = "serve" ∷ "--bg" ∷ serve_target local ∷ []

abbrev pub off_args : HostEndpoint → List String
off_args local = "serve" ∷ "--bg" ∷ serve_target local ∷ "off" ∷ []

abbrev pub status_args : List String
status_args = "status" ∷ "--json" ∷ []

result-cases :
    (r : TunnelError ⊎ String) → ((e : TunnelError) × (r ≡ inl e)) ⊎ ((h : String) × (r ≡ inr h))
result-cases (inl e) = inl (e, refl)
result-cases (inr h) = inr (h, refl)

parsed-cases :
    (r : TunnelError ⊎ Dict Json)
    → ((e : TunnelError) × (r ≡ inl e)) ⊎ ((o : Dict Json) × (r ≡ inr o))
parsed-cases (inl e) = inl (e, refl)
parsed-cases (inr o) = inr (o, refl)

running :
    (v : Option Json)
    → (elim (as_string v) [ none ↦ false | some reported ↦ str_eq reported "Running" ]) ≡ true
    → v ≡ some (str "Running")
running (some (str s)) e = ap (λ x. some (str x)) ((eq_iff s "Running").0 e)
running none e = cc
running (some null) e = cc
running (some (bool b)) e = cc
running (some (num n)) e = cc
running (some (arr vs)) e = cc
running (some (obj o)) e = cc

-- The tunnel after an attempt: whether the endpoint is a loopback one, and what the command to serve it printed.
abbrev pub attempted : Bool → Option String → HostEndpoint → TailscaleTunnel → TailscaleTunnel
attempted false out local t = t
attempted true none local t = t
attempted true (some out) local t = record t { served_local = some local }

module _ {World : Type 0} (parse : String → Option Json)
    (run : World → List String → Option String × World) (fetch : World → Option (Fields × String))
    (save : World → Fields → String → Bool × World) where
  member :
      (stdout host : String)
      → host_of_status parse stdout ≡ inr host
      → (o : Dict Json) × (parse_tailscale_status parse stdout ≡ inr o)
        × (get "BackendState" o ≡ some (str "Running"))
  unfolding host_of_status is_tailnet_member
  member stdout host e = elim (parsed-cases (parse_tailscale_status parse stdout)) [
    | inl (error, p) ↦ absurd (let no = rw (p, host_of_status) at e in cc no)
    | inr (o, p) ↦ elim (Bool-cases (is_tailnet_member o)) [
      | inr m ↦ absurd (let no = rw (p, m, host_of_status) at e in cc no)
      | inl m ↦ (o, p, running (get "BackendState" o) m)
    ]
  ]

  -- The steps of an establishment, in the order of the calls.
  pub record Established (w : World) (t : TailscaleTunnel) (local : HostEndpoint) (host : String)
      (w' : World) (t' : TailscaleTunnel) : Type 0 where
    pub loopback : is_loopback_host local.host ≡ true
    pub stdout : String
    pub reported : (run (run w (serve_args local)).1 status_args).0 ≡ some stdout
    pub named : host_of_status parse stdout ≡ inr host
    pub after : TailscaleTunnel
    pub acl :
        provision parse run fetch save t.provisioning
          (run (run w (serve_args local)).1 status_args).1
          (record t { served_local = some local })
        ≡ (none, w', after)
    pub state : t' ≡ record after { established = some host }

  finish-ok :
      (h host : String) (g : Option TunnelError × World × TailscaleTunnel) (w' : World)
      (t' : TailscaleTunnel)
      → finish_establish parse run fetch save h g ≡ (inr host, w', t')
      → (h ≡ host)
        × (after : TailscaleTunnel) × (g ≡ (none, w', after))
        × (t' ≡ record after { established = some host })
  finish-ok h host (some error, w, t) w' t' e = absurd (let no = ap (λ x. x.0) e in cc no)
  finish-ok h host (none, w, t) w' t' e =
      let left = ap (λ x. x.0) e in
      let same : h ≡ host = cc in
      (
        same,
        t,
        ap (λ (v : World). (none, v, t)) (ap (λ x. x.1) e),
        rw same at (sym (ap (λ x. x.2) e)),
      )

  pub establish-Established :
      (w : World) (t : TailscaleTunnel) (local : HostEndpoint) (host : String) (w' : World)
      (t' : TailscaleTunnel)
      → establish parse run fetch save w t local ≡ (inr host, w', t')
      → Established w t local host w' t'
  unfolding establish
  establish-Established w t local host w' t' e = elim (Bool-cases (is_loopback_host local.host)) [
    | inr l ↦ absurd (let no = ap (λ x. x.0) (rw (l, establish) at e) in cc no)
    | inl l ↦ elim (Option-cases (run w (serve_args local)).0) [
      | inl s ↦ absurd (let no = ap (λ x. x.0) (rw (l, s, establish) at e) in cc no)
      | inr (out, s) ↦ elim (Option-cases (run (run w (serve_args local)).1 status_args).0) [
        | inl r ↦ absurd (let no = ap (λ x. x.0) (rw (l, s, r, establish) at e) in cc no)
        | inr (stdout, r) ↦ elim (result-cases (host_of_status parse stdout)) [
          | inl (error, n) ↦
              absurd (let no = ap (λ x. x.0) (rw (l, s, r, n, establish) at e) in cc no)
          | inr (h, n) ↦
              let (same, after, acl, state) =
                finish-ok h host _ w' t' (rw (l, s, r, n, establish) at e) in
              record {
                loopback = l;
                stdout = stdout;
                reported = r;
                named = n ∙ ap (λ x. inr x) same;
                after = after;
                acl = acl;
                state = state;
              }
        ]
      ]
    ]
  ]

  provision-served :
      (p : Option Fields) (w w' : World) (t t' : TailscaleTunnel)
      → provision parse run fetch save p w t ≡ (none, w', t')
      → t'.served_local ≡ t.served_local
  unfolding provision_acl
  provision-served none w w' t t' e = ap (λ x. x.2.served_local) (sym e)
  provision-served (some grant) w w' t t' e = ground arith

  -- A tunnel is established only for a loopback endpoint and only where `tailscale status` printed an object that says that
  -- this machine is a running member of the tailnet; then the endpoint counts as served, and the tunnel as up
  -- under the host that the output names.
  pub establish-member :
      (w : World) (t : TailscaleTunnel) (local : HostEndpoint) (host : String) (w' : World)
      (t' : TailscaleTunnel)
      → establish parse run fetch save w t local ≡ (inr host, w', t')
      → (is_loopback_host local.host ≡ true)
        × (stdout : String) × (o : Dict Json) × ((run (run w (serve_args local)).1 status_args).0
            ≡ some stdout)
        × (parse_tailscale_status parse stdout ≡ inr o)
        × (get "BackendState" o ≡ some (str "Running"))
        × (host_of_status parse stdout ≡ inr host)
        × (tunnel_status t' ≡ some host)
        × (t'.served_local ≡ some local)
  unfolding tunnel_status
  establish-member w t local host w' t' e =
      let m = establish-Established w t local host w' t' e in
      let (o, p, b) = member m.stdout host m.named in
      (
        m.loopback,
        m.stdout,
        o,
        m.reported,
        p,
        b,
        m.named,
        ap (λ (u : TailscaleTunnel). u.established) m.state,
        ap (λ (u : TailscaleTunnel). u.served_local) m.state
            ∙ provision-served t.provisioning _ w' (record t { served_local = some local }) m.after
                m.acl,
      )

  finish-fails :
      (h : String) (p : Option Fields) (w : World) (t : TailscaleTunnel) (error : TunnelError)
      (w' : World) (t' : TailscaleTunnel)
      → finish_establish parse run fetch save h (provision parse run fetch save p w t)
        ≡ (inl error, w', t')
      → t' ≡ t
  unfolding provision_acl
  finish-fails h none w t error w' t' e = absurd (let no = ap (λ x. x.0) e in cc no)
  finish-fails h (some grant) w t error w' t' e = ground arith

  -- An establishment that fails leaves what is reported of the tunnel, and the grant to revert, as they were. The
  -- endpoint counts as served from the moment the command that serves it has run, so that a later
  -- teardown releases it.
  pub establish-fails :
      (w : World) (t : TailscaleTunnel) (local : HostEndpoint) (error : TunnelError) (w' : World)
      (t' : TailscaleTunnel)
      → establish parse run fetch save w t local ≡ (inl error, w', t')
      → t' ≡ attempted (is_loopback_host local.host) (run w (serve_args local)).0 local t
  unfolding establish
  establish-fails w t local error w' t' e = elim (Bool-cases (is_loopback_host local.host)) [
    | inr l ↦ let k = ap (λ x. x.2) (rw (l, establish) at e) in rw l (sym k)
    | inl l ↦ elim (Option-cases (run w (serve_args local)).0) [
      | inl s ↦ let k = ap (λ x. x.2) (rw (l, s, establish) at e) in rw (l, s) (sym k)
      | inr (out, s) ↦ elim (Option-cases (run (run w (serve_args local)).1 status_args).0) [
        | inl r ↦ let k = ap (λ x. x.2) (rw (l, s, r, establish) at e) in rw (l, s) (sym k)
        | inr (stdout, r) ↦ elim (result-cases (host_of_status parse stdout)) [
          | inl (why, n) ↦
              let k = ap (λ x. x.2) (rw (l, s, r, n, establish) at e) in rw (l, s) (sym k)
          | inr (h, n) ↦
              rw (l, s)
                (finish-fails h t.provisioning _ (record t { served_local = some local }) error w'
                  t' (rw (l, s, r, n, establish) at e))
        ]
      ]
    ]
  ]
