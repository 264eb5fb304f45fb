-- ===== src/Server/Tests/Channels.antt =====
-- The theorems on the channels and the routes of packages/server, at a concrete session and its worker.
use native.Mathlib.Omega.{arith}
use ccctl.Base.{
  ℕ, ◌+◌, ◌≡◌, ◌↔◌, refl, inr, String, true, not, ◌&&◌, List, [], ◌∷◌, ◌++◌, Option, none, some,
  length, ◌==◌, ne_str_eq, if◌then◌else◌,
}
use ccctl.Base.Dict.{get, delete}
use ccctl.Core.Json.{Json, num, nonneg, str, obj, field, end}
use ccctl.Core.Session.{idle as idle_status, is_session_stale}
use ccctl.Server.Worker.{
  Environment, WorkerChannelRecord, WorkerChannelState, liveness, consider_eviction,
}
use ccctl.Server.Worker.Handoff.{Disk}
use ccctl.Server.Worker.Handlers.{
  error, json, read, is_epoch, handle_worker_register, handle_worker_delivery,
}
use ccctl.Server.Worker.Status.{handle_worker_events, handle_worker_status}
use ccctl.Server.Worker.Timers.{IsOwned}
use ccctl.Server.Worker.History.{Step, registers, opens, loses, fires, reaps, run, run-IsOwned}
use ccctl.Server.Worker.Epochs.{register-supersedes}
use ccctl.Server.Worker.Reports.{Report, put}
use ccctl.Server.Worker.Sequences.{deliver, deliver_all, deliver-late}
use ccctl.Server.Worker.Evictions.{is_alone, consider_eviction_lem}
use ccctl.Server.Worker.Frames.{push_all, frames, push_all_lem}
use ccctl.Server.Routes.{events, WorkerRoute, match_worker_route}
use ccctl.Server.Routes.RoundTrip.{IsSegment, path_of, match_worker_route_iff}
use ccctl.Server.Tests.Closed.{printed, working, before}

abbrev pub settings : Environment
settings = record {
  stringify = printed;
  uuid = λ n. "u";
  session_eviction_grace_ms = 30000;
  session_idle_threshold_ms = 120000;
}

abbrev pub attached : WorkerChannelRecord
attached = record {
  epoch = 3;
  downstream = some 1;
  next_seq = 5;
  highest_status_seq = some 4;
  liveness_timer = some 0;
  eviction_timer = none;
  idle_timer = none;
}

abbrev pub start : WorkerChannelState
start = record {
  hub = before;
  worker_channels = ("s1", 0) ∷ [];
  heap = λ r. attached;
  next_ref = 1;
  armed = λ t. if t == 0 then some (liveness 0 1) else none;
  next_timer = 1;
  listeners =
      λ res. if res == 1 then some (record { session_id = "s1"; ref = 0; timer = 0 }) else none;
  next_response = 3;
  uuids = 0;
  hook_reads = 0;
  consumed = [];
}

abbrev no_parse : String → Option Json
no_parse s = none

start-IsOwned : IsOwned start
unfolding get
start-IsOwned = record {
  owner = λ t task e. ground arith;
  exclusive = λ r. inr refl;
  listening = λ res l e d. ground arith;
  task_known = λ t task e. ground arith;
  channel_known = λ id r e. ground arith;
  listener_known = λ res l e. ground arith;
}

abbrev no_file : ℕ → ℕ → Disk
no_file at install = record { resolved_parent = none; resolved_dir = none; size = none; raw = none }

abbrev life : List Step
life =
    opens "GET" "s1" ∷ loses 1 ∷ loses 3 ∷ fires 2 40000 ∷ registers "POST" "s1" ∷ reaps "s1" ∷ []

run-IsOwned_example : IsOwned (run settings no_parse no_file start life)
run-IsOwned_example = run-IsOwned settings no_parse no_file life start start-IsOwned

listed_s1 : get "s1" start.hub.sessions ≡ some working
unfolding get
listed_s1 = refl

there : get "s1" start.worker_channels ≡ some 0
unfolding get
there = refl

abbrev late_report : Report
late_report = put idle_status (some 5)

abbrev last_report : Report
last_report = put idle_status (some 9)

abbrev unnumbered : List (Report × ℕ)
unnumbered = (put idle_status none, 55) ∷ []

deliver-late_example :
    let t =
      deliver_all settings no_parse no_file
        (deliver settings no_parse no_file start 0 "s1" 50 last_report)
        0
        "s1"
        unnumbered in
    deliver settings no_parse no_file t 0 "s1" 60 late_report ≡ t
deliver-late_example =
    deliver-late settings no_parse no_file start 0 "s1" working last_report late_report unnumbered 9
      5 50 60 listed_s1 refl refl (ground arith)

abbrev third_body : Json
third_body = obj (field "worker_epoch" (num (nonneg 3)) end)

third : is_epoch (get "worker_epoch" (("worker_epoch", num (nonneg 3)) ∷ [])) 3 ≡ true
unfolding get
third = refl

register-supersedes_example :
    let (answer, t) = handle_worker_register "POST" start "s1" in
    (answer ≡ json (obj (field "worker_epoch" (num (nonneg 4)) end)))
    × (handle_worker_events settings no_parse no_file t "s1" (read third_body) 50 ≡ (error 409, t))
    × (handle_worker_status settings no_parse no_file t "s1" (read third_body) 50 ≡ (error 409, t))
    × (handle_worker_delivery t "s1" (read third_body) ≡ (error 409, t))
register-supersedes_example =
    register-supersedes settings no_parse no_file start "s1" working 0 third_body
      (("worker_epoch", num (nonneg 3)) ∷ []) 50 listed_s1 refl there refl third

-- Its stream is lost, and its timer of the grace fires.
abbrev lonely : WorkerChannelState
lonely = record start { heap = λ r. record attached { downstream = none; liveness_timer = none } }

alone_s1 : get "s1" lonely.hub.sessions ≡ some working
unfolding get
alone_s1 = refl

consider_eviction_lem_example :
    let t = consider_eviction settings lonely "s1" 0 90000 in
    let stale = is_session_stale working 90000 30000 in
    let silent = is_alone lonely "s1" 0 && stale in
    (t.hub.sessions ≡ (if silent then delete "s1" lonely.hub.sessions else lonely.hub.sessions))
    × (t.worker_channels
        ≡ (if silent then delete "s1" lonely.worker_channels else lonely.worker_channels))
    × ((t.heap 0).eviction_timer ≡ (if is_alone lonely "s1" 0 && not stale then some 1 else none))
    × (t.heap 4 ≡ lonely.heap 4)
    × (t.armed 8 ≡ lonely.armed 8)
consider_eviction_lem_example =
    consider_eviction_lem settings lonely "s1" 0 90000 4 8 working alone_s1
      (ground arith, (λ e. cc e), (λ e. cc e), ground arith)

abbrev two_payloads : List Json
two_payloads = str "a" ∷ str "b" ∷ []

push_all_lem_example :
    (t : WorkerChannelState) × (push_all settings start "s1" two_payloads ≡ some t)
    × (t.hub.wire.written ≡ start.hub.wire.written ++ frames settings 1 5 0 two_payloads)
    × ((t.heap 0).next_seq ≡ 5 + length two_payloads)
push_all_lem_example = push_all_lem settings start "s1" 0 1 two_payloads there refl

abbrev events_of_s1 : WorkerRoute
events_of_s1 = record { leg = events; session_id = "s1" }

s1-IsSegment : IsSegment "s1"
s1-IsSegment = (ne_str_eq "s1" "" refl, refl)

match_worker_route_iff_example :
    (match_worker_route "/v1/code/sessions/s1/worker/events" ≡ some events_of_s1)
    ↔ (("/v1/code/sessions/s1/worker/events" ≡ path_of events_of_s1) × IsSegment "s1")
match_worker_route_iff_example =
    match_worker_route_iff "/v1/code/sessions/s1/worker/events" events_of_s1
