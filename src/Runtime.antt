-- ===== src/Runtime.antt =====
-- backend/app/runtime_state.py
pub mod Payload
pub mod PayloadBounds
pub mod Prompt
pub mod State
pub mod Runs
pub mod Claim
pub mod Lifecycle
pub mod Sessions
pub mod RunEvents
pub mod History
pub mod Permissions
pub mod Cleanup
pub mod Steps
pub mod Reach
pub mod Pruning
pub mod Transcripts
pub mod Decisions
pub mod Orphans
pub mod Pages
mod Examples
