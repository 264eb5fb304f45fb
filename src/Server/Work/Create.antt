-- ===== src/Server/Work/Create.antt =====
-- packages/server/src/environments-bridge.ts: the requests that register an environment and create a session. The
-- body, read and parsed, is an argument; identifiers, tokens and the encoding of a secret are parameters.
use native.Mathlib.Omega.{arith}
use Prim.Native.String.{◌++◌ as ◌+++◌}
use mathlib.Core.List.{append-nil}
use ccctl.Base.{
  ℕ, ◌+◌, ◌≡◌, refl, subst, sym, inl, inr, String, Bool, not, List, [], ◌∷◌, ◌++◌, Option, none,
  some, str_eq, if◌then◌else◌, Option-cases,
}
use ccctl.Base.Dict.{Dict, get, set, get-set_self}
use ccctl.Core.Json.{str, obj, field, end}
use ccctl.Core.Network.{format_authority}
use ccctl.Core.Session.{create_session}
use ccctl.Server.Bearer.{parse_bearer}
use ccctl.Server.Bridge.{
  WorkItem, session, WorkSecret, SessionCreateRequestBody, parse_session_create_body,
  parse_environment_register_body,
}
use ccctl.Server.Pending.{PendingLaunchState, claim_pending_launch}
use ccctl.Server.Worker.Handlers.{Reply, error, json, Body, unread, read}
use ccctl.Server.Work.{EnvironmentRecord, WorkState, register_environment, enqueue_work}
use ccctl.Server.Work.Steps.{IsServed}
use ccctl.Server.Work.Queue.{enqueue_work-IsServed}

pub record BridgeState : Type 0 where
  pub pending : PendingLaunchState
  pub work : WorkState
  pub host : String
  pub port : ℕ
  pub drawn : ℕ

-- `randomUUID`, the ingress token and base64url of the secret's JSON.
pub record Mint : Type 0 where
  pub uuid : ℕ → String
  pub token : ℕ → String
  pub encode : WorkSecret → String

-- The last key of the map.
abbrev pub latest_environment : Dict EnvironmentRecord → Option String
latest_environment [] = none
latest_environment ((id, env) ∷ []) = some id
latest_environment ((id, env) ∷ (j, other) ∷ more) = latest_environment ((j, other) ∷ more)

module _ (mint : Mint) where
  unfoldable pub handle_environment_register :
      String → Option String → BridgeState → Body → Reply × BridgeState
  handle_environment_register method authorization s body =
      if not (str_eq method "POST") then (error 405, s) else elim (parse_bearer authorization) [
        | none ↦ (error 401, s)
        | some token ↦ elim body [
          | unread status ↦ (error status, s)
          | read value ↦ elim (parse_environment_register_body value) [
            | none ↦ (error 400, s)
            | some b ↦
                let id = mint.uuid s.drawn in
                (
                  json (obj (field "environment_id" (str id) end)),
                  record s {
                    work = register_environment s.work id b.max_sessions;
                    drawn = s.drawn + 1;
                  },
                )
          ]
        ]
      ]

  -- The item that a session's worker polls.
  abbrev pub session_work : BridgeState → String → WorkItem
  session_work s session_id =
      let secret : WorkSecret = record {
        session_ingress_token = mint.token s.drawn;
        api_base_url = "http://" +++ format_authority s.host s.port;
      } in
      record {
        id = mint.uuid s.drawn;
        secret = mint.encode secret;
        data_ = record { type = session; id = some session_id };
      }

  unfoldable pub enqueue_session_work : BridgeState → String → BridgeState
  unfolding enqueue_work format_authority
  enqueue_session_work s session_id = elim (latest_environment s.work.environments) [
    | none ↦ s
    | some id ↦ record s {
      work = (enqueue_work s.work id (session_work s session_id)).1;
      drawn = s.drawn + 1;
    }
  ]

module _ (mint : Mint) (resolve : String → String) (is_absolute : String → Bool)
    (realpath : String → Option String) where
  -- The session of an accepted request: that of the launch it is matched to, or a new one.
  unfoldable pub create : BridgeState → SessionCreateRequestBody → ℕ → Reply × BridgeState
  unfolding claim_pending_launch enqueue_session_work create_session
  create s b now =
      let (claimed, pending) =
        claim_pending_launch resolve is_absolute realpath s.pending b.cwd b.permission_mode in
      let id : String = elim claimed [ some id ↦ id | none ↦ mint.uuid s.drawn ] in
      let created = record s {
        pending = record pending {
          sessions = set id (create_session id b.permission_mode now) pending.sessions;
        };
        drawn = elim claimed [ some id ↦ s.drawn | none ↦ s.drawn + 1 ];
      } in
      (json (obj (field "session_id" (str id) end)), enqueue_session_work mint created id)

  unfoldable pub handle_session_create :
      String → Option String → BridgeState → Body → ℕ → Reply × BridgeState
  unfolding create
  handle_session_create method authorization s body now =
      if not (str_eq method "POST") then (error 405, s) else elim (parse_bearer authorization) [
        | none ↦ (error 401, s)
        | some token ↦ elim body [
          | unread status ↦ (error status, s)
          | read value ↦ elim (parse_session_create_body value) [
            | none ↦ (error 400, s)
            | some b ↦ create s b now
          ]
        ]
      ]

-- An item for the environment that was registered last.
abbrev pub for_latest : Dict EnvironmentRecord → String → WorkItem → List WorkItem
for_latest environments e item = elim (latest_environment environments) [
  | none ↦ []
  | some latest ↦ if str_eq latest e then item ∷ [] else []
]

enqueue-IsServed :
    (mint : Mint) (s : BridgeState) (id e : String) (a : List WorkItem)
    → IsServed e a s.work
    → IsServed e
        (a ++ for_latest s.work.environments e (session_work mint s id))
        (enqueue_session_work mint s id).work
unfolding enqueue_session_work
enqueue-IsServed mint s id e a o = elim (Option-cases (latest_environment s.work.environments)) [
  | inl l ↦
      rw (l, for_latest, enqueue_session_work)
        (subst (λ x. IsServed e x s.work) (sym (append-nil a)) o)
  | inr (latest, l) ↦
      rw (l, for_latest, enqueue_session_work)
        (enqueue_work-IsServed e a s.work latest (session_work mint s id) o)
]

pub enqueue_pending :
    (mint : Mint) (s : BridgeState) (id : String)
    → (enqueue_session_work mint s id).pending ≡ s.pending
unfolding enqueue_session_work
enqueue_pending mint s id = ground arith

module _ (mint : Mint) (resolve : String → String) (is_absolute : String → Bool)
    (realpath : String → Option String) where
  -- A session that is created is in the map under the identifier of the answer, as a new session with the reported
  -- mode, and its item of work is handed, after all that were before it, to the environment that was registered
  -- last, and to no other; the item names the session.
  pub create_lem :
      (s : BridgeState) (b : SessionCreateRequestBody) (now : ℕ) (e : String) (a : List WorkItem)
      → IsServed e a s.work
      → let (answer, t) = create mint resolve is_absolute realpath s b now in
        (id : String) × (item : WorkItem) × (answer ≡ json (obj (field "session_id" (str id) end)))
        × (get id t.pending.sessions ≡ some (create_session id b.permission_mode now))
        × (item.data_.id ≡ some id)
        × IsServed e (a ++ for_latest s.work.environments e item) t.work
  unfolding create
  create_lem s b now e a o =
      let taken =
        claim_pending_launch resolve is_absolute realpath s.pending b.cwd b.permission_mode in
      let id : String = elim taken.0 [ some id ↦ id | none ↦ mint.uuid s.drawn ] in
      let created : BridgeState = record s {
        pending = record taken.1 {
          sessions = set id (create_session id b.permission_mode now) taken.1.sessions;
        };
        drawn = elim taken.0 [ some id ↦ s.drawn | none ↦ s.drawn + 1 ];
      } in
      (
        id,
        session_work mint created id,
        refl,
        rw (enqueue_pending mint created id)
            (get-set_self id (create_session id b.permission_mode now) taken.1.sessions),
        refl,
        enqueue-IsServed mint created id e a o,
      )
