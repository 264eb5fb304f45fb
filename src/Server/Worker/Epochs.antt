-- ===== src/Server/Worker/Epochs.antt =====
-- The generations of a worker in packages/server/src/worker-channel.ts: a registration supersedes the one before.
use native.Mathlib.Omega.{arith}
use ccctl.Base.{ℕ, ◌+◌, ◌≡◌, refl, String, true, false, Option, some}
use ccctl.Base.Dict.{Dict, get, get-set_self}
use ccctl.Core.Json.{Json, nonneg, num, obj, field, end, as_object}
use ccctl.Core.Session.{Session}
use ccctl.Server.Worker.{Environment, WorkerChannelState, end_downstream}
use ccctl.Server.Worker.Handoff.{Disk}
use ccctl.Server.Worker.Handlers.{
  Reply, error, json, read, rejects_registering, is_epoch, with_body, register,
  handle_worker_register, handle_worker_delivery,
}
use ccctl.Server.Worker.Status.{handle_worker_events, handle_worker_status}

is_epoch-next : (v : Option Json) (n : ℕ) → is_epoch v n ≡ true → is_epoch v (n + 1) ≡ false
is_epoch-next v n e = ground arith

with_body-epoch :
    (s : WorkerChannelState) (id : String) (value : Json)
    (on_body : ℕ → Dict Json → Reply × WorkerChannelState) (o : Dict Json) (ref : ℕ)
    → as_object value ≡ some o
    → get id s.worker_channels ≡ some ref
    → is_epoch (get "worker_epoch" o) (s.heap ref).epoch ≡ false
    → with_body s id (read value) on_body ≡ (error 409, s)
unfolding with_body
with_body-epoch s id value on_body o ref e g k = rw (e, g, k, with_body) refl

-- What a registration over `prev` leaves.
registered :
    (s : WorkerChannelState) (id : String) (prev : ℕ)
    → get id s.worker_channels ≡ some prev
    → let t = register s id in
      (ref : ℕ) × (get id t.worker_channels ≡ some ref)
      × ((t.heap ref).epoch ≡ (s.heap prev).epoch + 1)
unfolding register
registered s id prev g =
    rw (g, register)
      (let ended = end_downstream s prev in
        (ended.next_ref, get-set_self id ended.next_ref ended.worker_channels, ground arith))

accepted :
    (s : WorkerChannelState) (id : String) (session : Session) (ref : ℕ)
    → get id s.hub.sessions ≡ some session
    → rejects_registering session ≡ false
    → get id (register s id).worker_channels ≡ some ref
    → handle_worker_register "POST" s id ≡ (
      json (obj (field "worker_epoch" (num (nonneg ((register s id).heap ref).epoch)) end)),
      register s id,
    )
unfolding handle_worker_register
accepted s id session ref g k e = rw (g, k, e, handle_worker_register) refl

module _ (env : Environment) (parse : String → Option Json) (disk : ℕ → ℕ → Disk) where
  -- A registration where a worker was registered before is answered with the next epoch, and every body of the
  -- three legs that carries the epoch before is then refused with 409 and changes nothing.
  pub register-supersedes :
      (s : WorkerChannelState) (id : String) (session : Session) (prev : ℕ) (value : Json)
      (o : Dict Json) (now : ℕ)
      → get id s.hub.sessions ≡ some session
      → rejects_registering session ≡ false
      → get id s.worker_channels ≡ some prev
      → as_object value ≡ some o
      → is_epoch (get "worker_epoch" o) (s.heap prev).epoch ≡ true
      → let (answer, t) = handle_worker_register "POST" s id in
        (answer ≡ json (obj (field "worker_epoch" (num (nonneg ((s.heap prev).epoch + 1))) end)))
        × (handle_worker_events env parse disk t id (read value) now ≡ (error 409, t))
        × (handle_worker_status env parse disk t id (read value) now ≡ (error 409, t))
        × (handle_worker_delivery t id (read value) ≡ (error 409, t))
  unfolding handle_worker_events handle_worker_status handle_worker_delivery
  register-supersedes s id session prev value o now g k c e old =
      let (ref, there, next) = registered s id prev c in
      let t = register s id in
      let newer : is_epoch (get "worker_epoch" o) (t.heap ref).epoch ≡ false =
        rw next (is_epoch-next (get "worker_epoch" o) (s.heap prev).epoch old) in
      let answer : json (obj (field "worker_epoch" (num (nonneg (t.heap ref).epoch)) end))
          ≡ json (obj (field "worker_epoch" (num (nonneg ((s.heap prev).epoch + 1))) end)) =
        rw next refl in
      rw (accepted s id session ref g k there) (
        answer,
        with_body-epoch t id value _ o ref e there newer,
        with_body-epoch t id value _ o ref e there newer,
        with_body-epoch t id value _ o ref e there newer,
      )
