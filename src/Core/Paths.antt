-- ===== src/Core/Paths.antt =====
-- The paths of the bridge in packages/core/src/index.ts, as the server and its clients write them.
use Prim.Native.String.{◌++◌ as ◌+++◌}
use ccctl.Base.{String}

abbrev pub environments_bridge_path : String
environments_bridge_path = "/v1/environments/bridge"

abbrev pub sessions_path : String
sessions_path = "/v1/sessions"

abbrev pub environment_work_poll_path : String → String
environment_work_poll_path environment_id =
    "/v1/environments/" +++ (environment_id +++ "/work/poll")

-- The paths of a session's channel: what follows `worker` is the argument.
abbrev pub worker_channel : String → String → String
worker_channel session_id tail = "/v1/code/sessions/" +++ (session_id +++ ("/worker" +++ tail))

abbrev pub worker_channel_path : String → String
worker_channel_path session_id = worker_channel session_id ""

abbrev pub worker_register_path : String → String
worker_register_path session_id = worker_channel session_id "/register"

abbrev pub worker_events_stream_path : String → String
worker_events_stream_path session_id = worker_channel session_id "/events/stream"

abbrev pub worker_events_path : String → String
worker_events_path session_id = worker_channel session_id "/events"

abbrev pub worker_events_delivery_path : String → String
worker_events_delivery_path session_id = worker_channel session_id "/events/delivery"

abbrev pub worker_heartbeat_path : String → String
worker_heartbeat_path session_id = worker_channel session_id "/heartbeat"
