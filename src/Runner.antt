-- ===== src/Runner.antt =====
-- One node's runner: internal/scheduler/runner/.
pub mod Backoff
pub mod Send
pub mod Fanout
pub mod Cancels
pub mod Debouncer
pub mod Updates
pub mod Messages
pub mod Status
pub mod Emits
