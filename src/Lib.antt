-- ===== src/Lib.antt =====
-- A model of ccctl, which lets an operator's devices watch and answer Claude Code sessions through a local
-- server. packages/core has the data and its rules: frames, sessions, enrichments, answers, devices.
-- packages/web-ui is the client that asks for launches and stops, packages/tunnel-adapters the way in from the
-- tailnet. packages/server keeps the sessions of one host: it launches them, matches the bridges that register to the
-- launches, relays the workers' events to the UI, queues what nobody has seen, and stores its state in files.
--
-- Which file models which part (paths from the repository's root):
--   Base and its children: names passed on, tests on numbers, lists, and Base/Dict, a JavaScript `Map`.
--   Core/Json: parsed JSON as packages/core/src/index.ts inspects it.
--   Core/Frame, packages/core/src/index.ts: encodeControlFrame, decodeControlFrame and ControlFrameDecoder.
--     `drain` has as much fuel as the buffer has characters; each line takes at least its newline from it.
--   Core/Detail, packages/core/src/index.ts: displayableDetail, with the character classes it names.
--   Core/Session, packages/core/src/index.ts: Session, applyWorkerStatus, the heartbeat and the lifecycle.
--   Core/Mode, packages/core/src/index.ts: PermissionMode and its guard.
--   Core/Enrichment and Core/Answer, packages/core/src/index.ts: the questions of a session that waits, and
--     the validation of the operator's answers.
--   Core/Device, packages/core/src/index.ts: PairedDevice and the registry.
--   Server/EventStream, packages/server/src/event-stream.ts.
--   Server/Release, packages/server/src/session-release.ts and the readings of session-launcher.ts.
--   Server/Pending, packages/server/src/pending-launch.ts.
--   Server/Reconcile, packages/server/src/session-reconcile.ts.
--   Server/Unread, packages/server/src/unread-queue.ts and push-suppression.ts.
--   Server/Renudge, packages/server/src/renudge-cadence.ts.
--   Server/StoreFile, packages/server/src/session-store-file.ts and device-store-file.ts.
--   Server/Bridge, packages/server/src/bridge-wire.ts and the work items of packages/core/src/index.ts.
--   Server/Close, packages/server/src/session-close.ts.
--   Server/Bearer, packages/server/src/bearer.ts.
--   Server/Worker, packages/server/src/worker-channel.ts: Handoff has the hook's file, Handlers and Status the
--     requests. Records of workers stand in a heap, timers and responses are numbers, and `armed` and
--     `listeners` tell what will be called back.
--   Server/Routes, the matchers and handleRequest of packages/server/src: index.ts, ui-sessions.ts,
--     environments-bridge.ts and worker-channel.ts; Core/Paths the paths of packages/core/src/index.ts.
--   Server/Work, packages/server/src/environments-bridge.ts: the queues of work and the polls that wait;
--     Create has the sessions that bridges create.
--   Server/Commands, packages/server/src/ui-command.ts.
--   Server/Body, packages/server/src/http-response.ts.
--   Server/Stop, packages/server/src/ui-session-stop.ts: the stores of the modules above as one; Handler has the
--     endpoint. The state when the surface has answered is an argument.
--   Server/Launcher, packages/server/src/session-launcher.ts and session-launcher-fallback.ts.
--   Server/Launch, packages/server/src/ui-session-launch.ts: `begin_launch` and `finish_launch` are launchSession
--     before and after it waits for the backend; Capacity has launches side by side.
--   Server/Shutdown, packages/server/src/shutdown-signal.ts.
--   Web, packages/web-ui/src/stop.js and launch.js; Web/Answer, answers in enrichment.js and command.js.
--   Tunnel, packages/tunnel-adapters/src/index.ts: TailscaleTunnel; Policy has the edits of the tailnet's policy.
--   Server/Startup, packages/server/src/startup.ts, on Core/Network of packages/core/src/index.ts.
--   Core/Tests, Server/Tests, Web/Tests and Tunnel/Tests: the theorems at concrete inputs.
--
-- State is a record, and an operation a function from state to state. An exception is `none` or a
-- constructor of a result type. Numbers are natural numbers where the code only counts or adds times; a
-- parsed number keeps apart what is negative or no integer. Texts are sequences of Unicode scalar values.
-- Parameters stand for JSON.parse, JSON.stringify, Number, randomUUID, the calls of node:path and node:fs,
-- the probe of the operating system, the backends that launch and what a launched surface answers, the
-- tailscale command and the API of the tailnet's policy; the clock is an argument.
--
-- Not modelled: HTTP itself, the list of sessions, the terminal backends (processes and terminals), the
-- installation of hooks, logging, diagnostics, cryptography, the command line, the HTTP client of the
-- tailnet's policy, and the document of the web UI. Messages of errors are left out where no client reads
-- them. A launch and a stop are cut where they wait for a backend or a surface; calls that come between the
-- halves of other asynchronous operations are not modelled.
pub mod Base
pub mod Core
pub mod Server
pub mod Web
pub mod Tunnel
