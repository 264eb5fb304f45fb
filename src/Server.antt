-- ===== src/Server.antt =====
-- packages/server/src: the local server, one module for each of the files that are modelled.
pub mod EventStream
pub mod Release
pub mod Reconcile
pub mod Unread
pub mod Renudge
pub mod Pending
pub mod StoreFile
pub mod Bridge
pub mod Close
pub mod Body
pub mod Stop
pub mod Launcher
pub mod Launch
pub mod Bearer
pub mod Routes
pub mod Startup
pub mod Shutdown
pub mod Commands
pub mod Work
pub mod Worker
pub mod Tests
