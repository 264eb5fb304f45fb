-- ===== src/Web.antt =====
-- packages/web-ui/src: the parts of the web client that decide, without the document they are shown in.
pub mod Fields
pub mod Stop
pub mod Launch
pub mod Answer
pub mod Tests
