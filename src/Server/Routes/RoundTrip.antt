-- ===== src/Server/Routes/RoundTrip.antt =====
-- The paths that packages/core writes are the paths that the matchers of packages/server read.
use native.Mathlib.Omega.{arith}
use Prim.Native.String.{◌++◌ as ◌+++◌}
use text.Mathlib.TextLemmas.{nil-append, append-nil}
use ccctl.Base.{
  ◌≡◌, ◌≢◌, ◌↔◌, refl, ap, sym, ◌∙◌, inl, inr, String, true, false, List, [], ◌∷◌, none, some,
  str_eq, eq_iff, Bool-cases,
}
use ccctl.Base.Split.{
  split, join, free, glue, split-cons, join-split, split-All-free, split-free, split-append,
}
use ccctl.Core.Paths.{
  worker_channel_path, worker_register_path, worker_events_stream_path, worker_events_path,
  worker_events_delivery_path, worker_heartbeat_path, environments_bridge_path, sessions_path,
}
use ccctl.Server.Routes.{
  Leg, register, events_stream, events, events_delivery, heartbeat, status, WorkerRoute, leg_of,
  worker_segments, work_poll_segments, work_lifecycle_segments, match_worker_route, worker_route,
  route, match_ui_session_route, match_work_poll_path, match_work_lifecycle_path,
}

-- An identifier that a path can carry: not empty, and with no slash.
abbrev pub IsSegment : String → Type 0
IsSegment s = (s ≢ "") × (free "/" s ≡ true)

abbrev pub path_of : WorkerRoute → String
path_of r = elim r.leg [
  | register ↦ worker_register_path r.session_id
  | events_stream ↦ worker_events_stream_path r.session_id
  | events ↦ worker_events_path r.session_id
  | events_delivery ↦ worker_events_delivery_path r.session_id
  | heartbeat ↦ worker_heartbeat_path r.session_id
  | status ↦ worker_channel_path r.session_id
]

abbrev tail_of : Leg → List String
tail_of register = "register" ∷ []
tail_of events_stream = "events" ∷ "stream" ∷ []
tail_of events = "events" ∷ []
tail_of events_delivery = "events" ∷ "delivery" ∷ []
tail_of heartbeat = "heartbeat" ∷ []
tail_of status = []

leg_of_lem : (tail : List String) (leg : Leg) → leg_of tail ≡ some leg → tail ≡ tail_of leg
leg_of_lem [] leg e = ground arith
leg_of_lem (a ∷ []) leg e =
    ground (arith, eq_iff a "register", eq_iff a "events", eq_iff a "heartbeat")
leg_of_lem (a ∷ b ∷ []) leg e =
    ground (arith, eq_iff a "events", eq_iff b "stream", eq_iff b "delivery")
leg_of_lem (a ∷ b ∷ c ∷ t) leg e = ground arith

abbrev segments_of : WorkerRoute → List String
segments_of r = "" ∷ "v1" ∷ "code" ∷ "sessions" ∷ r.session_id ∷ "worker" ∷ tail_of r.leg

worker_at :
    (id : String) (xs : List String)
    → glue ("" ∷ "v1" ∷ "code" ∷ "sessions" ∷ id ∷ []) ("" ∷ xs)
      ≡ "" ∷ "v1" ∷ "code" ∷ "sessions" ∷ id ∷ xs
worker_at id xs = ap (λ z. "" ∷ "v1" ∷ "code" ∷ "sessions" ∷ z ∷ xs) (append-nil id)

split-channel :
    (id tail : String)
    → free "/" id ≡ true
    → split "/" ("/v1/code/sessions/" +++ (id +++ tail))
      ≡ glue ("" ∷ "v1" ∷ "code" ∷ "sessions" ∷ id ∷ []) (split "/" tail)
unfolding split
split-channel id tail f =
    let (y, ys, e) = split-cons "/" tail in
    rw
      (
        split-append "/" "/v1/code/sessions/" (id +++ tail),
        split-append "/" id tail,
        split-free "/" id f,
        e,
      )
      (ap (λ z. "" ∷ "v1" ∷ "code" ∷ "sessions" ∷ z ∷ ys) (nil-append (id +++ y)))

segments-path_of :
    (leg : Leg) (id : String)
    → free "/" id ≡ true
    → let r : WorkerRoute = record { leg = leg; session_id = id } in
      split "/" (path_of r) ≡ segments_of r
unfolding split
segments-path_of register id f =
    split-channel id "/worker/register" f ∙ worker_at id ("worker" ∷ "register" ∷ [])
segments-path_of events_stream id f =
    split-channel id "/worker/events/stream" f ∙ worker_at id ("worker" ∷ "events" ∷ "stream" ∷ [])
segments-path_of events id f =
    split-channel id "/worker/events" f ∙ worker_at id ("worker" ∷ "events" ∷ [])
segments-path_of events_delivery id f =
    split-channel id "/worker/events/delivery" f
    ∙ worker_at id ("worker" ∷ "events" ∷ "delivery" ∷ [])
segments-path_of heartbeat id f =
    split-channel id "/worker/heartbeat" f ∙ worker_at id ("worker" ∷ "heartbeat" ∷ [])
segments-path_of status id f = split-channel id "/worker" f ∙ worker_at id ("worker" ∷ [])

worker_segments_lem :
    (xs : List String) (r : WorkerRoute)
    → worker_segments xs ≡ some r
    → (xs ≡ segments_of r) × (r.session_id ≢ "")
worker_segments_lem [] r e = ground arith
worker_segments_lem (a ∷ []) r e = ground arith
worker_segments_lem (a ∷ b ∷ []) r e = ground arith
worker_segments_lem (a ∷ b ∷ c ∷ []) r e = ground arith
worker_segments_lem (a ∷ b ∷ c ∷ d ∷ []) r e = ground arith
worker_segments_lem (a ∷ b ∷ c ∷ d ∷ i ∷ []) r e = ground arith
worker_segments_lem (a ∷ v ∷ c ∷ d ∷ id ∷ w ∷ tail) r e = ground (
  arith,
  eq_iff a "",
  eq_iff v "v1",
  eq_iff c "code",
  eq_iff d "sessions",
  eq_iff w "worker",
  eq_iff id "",
  leg_of_lem tail r.leg,
)

leg_of-tail_of : (leg : Leg) → leg_of (tail_of leg) ≡ some leg
leg_of-tail_of register = refl
leg_of-tail_of events_stream = refl
leg_of-tail_of events = refl
leg_of-tail_of events_delivery = refl
leg_of-tail_of heartbeat = refl
leg_of-tail_of status = refl

not_empty : (s : String) → s ≢ "" → str_eq s "" ≡ false
not_empty s n = ground (arith, eq_iff s "")

-- A path with other parts is another path.
apart : (p q : String) → split "/" p ≢ split "/" q → str_eq p q ≡ false
apart p q n = elim (Bool-cases (str_eq p q)) [
  | inl k ↦ absurd (n (ap (split "/") ((eq_iff p q).0 k)))
  | inr k ↦ k
]

-- A path belongs to a leg of a session's worker exactly if it is the one that packages/core writes for that leg
-- and session, where the session's identifier is not empty and holds no slash.
pub match_worker_route_iff :
    (p : String) (r : WorkerRoute)
    → (match_worker_route p ≡ some r) ↔ ((p ≡ path_of r) × IsSegment r.session_id)
unfolding match_worker_route
match_worker_route_iff p r = (reads, written)
  where
    reads : match_worker_route p ≡ some r → (p ≡ path_of r) × IsSegment r.session_id
    reads e =
        let (s, nonempty) = worker_segments_lem (split "/" p) r e in
        let all = rw s at (split-All-free "/" p) in
        let f : free "/" r.session_id ≡ true = all.1.1.1.1.0 in
        let there : join "/" (split "/" p) ≡ join "/" (split "/" (path_of r)) =
          ap (join "/") (s ∙ sym (segments-path_of r.leg r.session_id f)) in
        (sym (join-split "/" p) ∙ (there ∙ join-split "/" (path_of r)), (nonempty, f))

    written : (p ≡ path_of r) × IsSegment r.session_id → match_worker_route p ≡ some r
    written (e, (nonempty, f)) =
        rw
          (
            e,
            segments-path_of r.leg r.session_id f,
            not_empty r.session_id nonempty,
            leg_of-tail_of r.leg,
          )
          refl

not_poll :
    (leg : Leg) (id : String)
    → work_poll_segments ("" ∷ "v1" ∷ "code" ∷ "sessions" ∷ id ∷ "worker" ∷ tail_of leg) ≡ none
not_poll leg id = ground arith

not_lifecycle :
    (leg : Leg) (id : String)
    → work_lifecycle_segments ("" ∷ "v1" ∷ "code" ∷ "sessions" ∷ id ∷ "worker" ∷ tail_of leg) ≡ none
not_lifecycle leg id = ground arith

-- The paths of a worker reach the handlers of the worker: no route before them takes one.
pub route-path_of :
    (method : String) (r : WorkerRoute)
    → IsSegment r.session_id
    → route method (path_of r) ≡ worker_route method r
unfolding route match_ui_session_route match_work_poll_path match_work_lifecycle_path
    match_worker_route
route-path_of method r (nonempty, f) =
    let s = segments-path_of r.leg r.session_id f in
    let bridge : split "/" (path_of r) ≢ split "/" environments_bridge_path = rw s (ground arith) in
    let session : split "/" (path_of r) ≢ split "/" sessions_path = rw s (ground arith) in
    let ui : match_ui_session_route (path_of r) ≡ none = rw s refl in
    let poll : match_work_poll_path (path_of r) ≡ none = rw s (not_poll r.leg r.session_id) in
    let lifecycle : match_work_lifecycle_path (path_of r) ≡ none =
      rw s (not_lifecycle r.leg r.session_id) in
    rw
      (
        ui,
        apart (path_of r) environments_bridge_path bridge,
        apart (path_of r) sessions_path session,
        poll,
        lifecycle,
        (match_worker_route_iff (path_of r) r).1 (refl, (nonempty, f)),
        route,
      )
      refl
