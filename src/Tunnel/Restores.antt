-- ===== src/Tunnel/Restores.antt =====
-- A tunnel of packages/tunnel-adapters/src/index.ts that is torn down leaves the tailnet's policy as it was before.
use mathlib.Core.Logic.{◌⊎◌, inl, inr}
use ccctl.Base.{
  ◌≡◌, refl, ap, sym, ◌∙◌, String, Bool, true, false, List, Option, none, some, Bool-cases,
  Option-cases,
}
use ccctl.Core.Json.{Json, Fields, obj}
use ccctl.Tunnel.{
  HostEndpoint, TunnelError, TailscaleTunnel, create_tunnel, provision, provision_acl, revert_acl,
  release, finish_teardown, establish, teardown,
}
use ccctl.Tunnel.Lifecycle.{off_args, serve_args, status_args, establish-Established}
use ccctl.Tunnel.Policy.{with_grant, without_grant, save_policy}
use ccctl.Tunnel.Policy.Equality.{IsKeyed}
use ccctl.Tunnel.Policy.Undo.{HasGrants, without-with}

-- The grant to add, if any, names no key twice.
abbrev pub IsGrant : Option Fields → Type 0
IsGrant none = Unit {0}
IsGrant (some grant) = IsKeyed (obj grant)

module _ {World : Type 0} (parse : String → Option Json)
    (run : World → List String → Option String × World) (fetch : World → Option (Fields × String))
    (save : World → Fields → String → Bool × World)
    (run-fetch : (w : World) (args : List String) → fetch (run w args).1 ≡ fetch w)
    (save-fetch : (w : World) (policy : Fields) (etag : String)
      → (save w policy etag).0 ≡ true
      → (next : String) × (fetch (save w policy etag).1 ≡ some (policy, next))) where
  abbrev pub Holds : World → Fields → Type 0
  Holds w policy = (etag : String) × (fetch w ≡ some (policy, etag))

  abbrev T : Type 0
  T = Option TunnelError × World × TailscaleTunnel

  release-ok :
      (local : HostEndpoint) (w w' : World) (t t' : TailscaleTunnel)
      → release parse run fetch save (some local) w t ≡ (none, w', t')
      → (w' ≡ (run w (off_args local)).1)
        × (t' ≡ record t { served_local = none; established = none })
  unfolding release
  release-ok local w w' t t' e = elim (Option-cases (run w (off_args local)).0) [
    | inl r ↦ absurd (let no = ap (λ x. x.0) (rw (r, release) at e) in cc no)
    | inr (out, r) ↦ let k = rw (r, release) at e in (sym (ap (λ x. x.1) k), sym (ap (λ x. x.2) k))
  ]

  finish-ok :
      (g : T) (w' : World) (t' : TailscaleTunnel)
      → finish_teardown parse run fetch save g ≡ (none, w', t')
      → (w : World) × (t : TailscaleTunnel) × (g ≡ (none, w, t))
        × (release parse run fetch save t.served_local w t ≡ (none, w', t'))
  finish-ok (some error, w, t) w' t' e = absurd (let no = ap (λ x. x.0) e in cc no)
  finish-ok (none, w, t) w' t' e = (w, t, refl, e)

  -- A tunnel with nothing to revert is released, and the policy stays.
  plain :
      (p : Option Fields) (local : HostEndpoint) (host : String) (policy : Fields) (w w' : World)
      (t' : TailscaleTunnel)
      → Holds w policy
      → release parse run fetch save
          (some local)
          w
          (record (create_tunnel p) { served_local = some local; established = some host })
        ≡ (none, w', t')
      → Holds w' policy × (t' ≡ create_tunnel p)
  plain p local host policy w w' t' h e =
      let (world, state) = release-ok local w w' _ t' e in
      ((h.0, rw world (run-fetch w (off_args local) ∙ h.1)), state)

  -- What provisioning leaves: the grant was there, or it was added and is to be reverted.
  provision-ok :
      (grant policy : Fields) (w w' : World) (t t' : TailscaleTunnel)
      → Holds w policy
      → provision_acl parse run fetch save w t grant ≡ (none, w', t')
      → ((w' ≡ w) × (t' ≡ t))
        ⊎ ((next : Fields) × (created : Bool) × (with_grant policy grant ≡ some (next, created))
            × Holds w' next
            × (t' ≡ record t { provisioned_grant = some grant; created_grants_key = created }))
  unfolding provision_acl
  provision-ok grant policy w w' t t' (etag, f) e = elim (Option-cases (with_grant policy grant)) [
    | inl g ↦
        let k = rw (f, g, provision_acl) at e in inl (sym (ap (λ x. x.1) k), sym (ap (λ x. x.2) k))
    | inr ((next, created), g) ↦ elim (Bool-cases (save w next etag).0) [
      | inr s ↦ absurd (let no = ap (λ x. x.0) (rw (f, g, s, provision_acl) at e) in cc no)
      | inl s ↦
          let k = rw (f, g, s, provision_acl) at e in
          let (tag, read) = save-fetch w next etag s in
          inr (next, created, g, (tag, rw (sym (ap (λ x. x.1) k)) read), sym (ap (λ x. x.2) k))
    ]
  ]

  revert-ok :
      (grant policy next : Fields) (w w' : World) (t t' : TailscaleTunnel)
      → Holds w next
      → without_grant next grant t.created_grants_key ≡ save_policy policy
      → revert_acl parse run fetch save w t grant ≡ (none, w', t')
      → Holds w' policy × (t' ≡ record t { provisioned_grant = none; created_grants_key = false })
  unfolding revert_acl
  revert-ok grant policy next w w' t t' (etag, f) u e = elim (Bool-cases (save w policy etag).0) [
    | inr s ↦ absurd (let no = ap (λ x. x.0) (rw (f, u, s, revert_acl) at e) in cc no)
    | inl s ↦
        let k = rw (f, u, s, revert_acl) at e in
        let (tag, read) = save-fetch w policy etag s in
        ((tag, rw (sym (ap (λ x. x.1) k)) read), sym (ap (λ x. x.2) k))
  ]

  torn :
      (p : Option Fields) (policy : Fields) (local : HostEndpoint) (host : String)
      (w w' w'' : World) (after t'' : TailscaleTunnel)
      → HasGrants policy
      → IsGrant p
      → Holds w policy
      → provision parse run fetch save p w (record (create_tunnel p) { served_local = some local })
        ≡ (none, w', after)
      → teardown parse run fetch save w' (record after { established = some host })
        ≡ (none, w'', t'')
      → Holds w'' policy × (t'' ≡ create_tunnel p)
  unfolding teardown
  torn none policy local host w w' w'' after t'' grants keyed h e d =
      let world = ap (λ x. x.1) e in
      let state = ap (λ x. x.2) e in
      plain none local host policy w' w'' t'' (rw (← world) h) (rw (sym state, teardown) at d)
  torn (some g) policy local host w w' w'' after t'' grants keyed h e d =
      elim (provision-ok g policy w w'
        (record (create_tunnel (some g)) { served_local = some local }) after h e) [
          | inl (world, state) ↦
              plain (some g) local host policy w' w'' t'' (rw world h) (rw (state, teardown) at d)
          | inr (next, created, added, h', state) ↦
              let (w1, t1, reverted, released) = finish-ok _ w'' t'' (rw (state, teardown) at d) in
              let (kept, clean) =
                revert-ok g policy next w' w1 _ t1 h'
                  (without-with policy g next created grants keyed added) reverted in
              plain (some g) local host policy w1 w'' t'' kept (rw clean at released)
        ]

  -- Where a command of the tailnet leaves the policy alone and a policy that was saved is the one that is read next,
  -- a new tunnel that is established and then torn down leaves the policy to the order of its keys as it was,
  -- whether the grant was in it before, was added to the grants, or was the first of them; and the tunnel is a
  -- new one again. The policy has an array of grants or none at all, and the grant names no key twice.
  pub establish-teardown :
      (p : Option Fields) (policy : Fields) (etag : String) (local : HostEndpoint) (host : String)
      (w w' w'' : World) (t' t'' : TailscaleTunnel)
      → HasGrants policy
      → IsGrant p
      → fetch w ≡ some (policy, etag)
      → establish parse run fetch save w (create_tunnel p) local ≡ (inr host, w', t')
      → teardown parse run fetch save w' t' ≡ (none, w'', t'')
      → Holds w'' policy × (t'' ≡ create_tunnel p)
  establish-teardown p policy etag local host w w' w'' t' t'' grants keyed read e d =
      let m = establish-Established parse run fetch save w (create_tunnel p) local host w' t' e in
      torn p policy local host (run (run w (serve_args local)).1 status_args).1 w' w'' m.after t''
        grants keyed
        (
          etag,
          run-fetch (run w (serve_args local)).1 status_args
              ∙ run-fetch w (serve_args local)
              ∙ read,
        )
        m.acl (rw m.state at d)
