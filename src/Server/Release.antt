-- ===== src/Server/Release.antt =====
-- packages/server/src/session-release.ts, with the liveness readings of session-launcher.ts: what becomes
-- of a launched surface that is released or stopped. What the surface answers is a parameter.
pub mod Stop
use ccctl.Base.{String, Bool, true, false, Option, none, some, if◌then◌else◌}

pub data SurfaceLiveness : Type 0 where
  alive_server_owned taken_over exited host_unreachable surface_indeterminate : SurfaceLiveness

pub data ReleaseDisposition : Type 0 where
  tear_down leave_running no_op : ReleaseDisposition

unfoldable pub decide_release : SurfaceLiveness → ReleaseDisposition
decide_release alive_server_owned = tear_down
decide_release taken_over = leave_running
decide_release exited = no_op
decide_release host_unreachable = leave_running
decide_release surface_indeterminate = leave_running

unfoldable pub forced_stop : SurfaceLiveness → ReleaseDisposition
forced_stop alive_server_owned = tear_down
forced_stop taken_over = tear_down
forced_stop exited = no_op
forced_stop host_unreachable = leave_running
forced_stop surface_indeterminate = tear_down

unfoldable pub decide_stop : SurfaceLiveness → Bool → ReleaseDisposition
unfolding decide_release forced_stop
decide_stop liveness force = if force then forced_stop liveness else decide_release liveness

-- A call of `liveness()`: a reading, or a rejection or a value that is no reading.
pub data Probe : Type 0 where
  reads : SurfaceLiveness → Probe
  fails : Probe

-- A call of `close()`: it completes, it is rejected, or it is pending when the time is up.
pub data Closing : Type 0 where
  completes rejects hangs : Closing

pub record TerminalAttachment : Type 0 where
  pub attachable : Bool
  pub hint : String

-- A launched surface: how the operator attaches to it, and what it answers, in the order of the calls.
pub record LaunchedSession : Type 0 where
  pub attachment : TerminalAttachment
  pub first : Probe
  pub closing : Closing
  pub second : Probe

unfoldable pub read_liveness : Probe → SurfaceLiveness
read_liveness (reads l) = l
read_liveness fails = host_unreachable

-- The result, unless `close()` never settles (there is no time limit here), and whether it was called.
unfoldable pub release_launched_session : LaunchedSession → Option ReleaseDisposition × Bool
unfolding decide_release read_liveness
release_launched_session launched = elim (decide_release (read_liveness launched.first)) [
  | leave_running ↦ (some leave_running, false)
  | no_op ↦ (some no_op, false)
  | tear_down ↦ elim launched.closing [
    | completes ↦ (some tear_down, true)
    | rejects ↦ (some tear_down, true)
    | hangs ↦ (none, true)
  ]
]

pub record StopOutcome : Type 0 where
  pub disposition : ReleaseDisposition
  pub liveness : SurfaceLiveness

pub data StopFailure : Type 0 where
  close_rejected close_timed_out still_running host_not_reached never_confirmed : StopFailure

pub data StopResult : Type 0 where
  stopped : StopOutcome → StopResult
  threw : StopFailure → StopResult

unfoldable pub close_within_timeout : Closing → Option StopFailure
close_within_timeout completes = none
close_within_timeout rejects = some close_rejected
close_within_timeout hangs = some close_timed_out

-- The second reading, after a close that completed.
unfoldable pub confirm : SurfaceLiveness → ReleaseDisposition → SurfaceLiveness → StopResult
confirm liveness disposition alive_server_owned = threw still_running
confirm liveness disposition taken_over = threw still_running
confirm liveness disposition host_unreachable = threw host_not_reached
confirm liveness disposition exited =
    stopped (record { disposition = disposition; liveness = liveness })
confirm surface_indeterminate disposition surface_indeterminate = threw never_confirmed
confirm liveness disposition surface_indeterminate =
    stopped (record { disposition = disposition; liveness = liveness })

-- The result, and whether `close()` was called.
unfoldable pub stop_launched_session : LaunchedSession → Bool → StopResult × Bool
unfolding decide_stop read_liveness close_within_timeout confirm
stop_launched_session launched force =
    let liveness = read_liveness launched.first in
    elim (decide_stop liveness force) [
      | leave_running ↦
          (stopped (record { disposition = leave_running; liveness = liveness }), false)
      | no_op ↦ (stopped (record { disposition = no_op; liveness = liveness }), false)
      | tear_down ↦ elim (close_within_timeout launched.closing) [
        | some failure ↦ (threw failure, true)
        | none ↦ (confirm liveness tear_down (read_liveness launched.second), true)
      ]
    ]
