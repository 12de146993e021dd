-- ===== src/Transcript.antt =====
-- backend/app/transcript_projection.py: the transcript of a run, and that of a remote session.
pub mod Defs
pub mod Updates
pub mod Segments
pub mod Contents
pub mod Sums
pub mod Additions
pub mod Conservation
pub mod Synced
mod Examples
