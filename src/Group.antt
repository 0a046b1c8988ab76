-- ===== src/Group.antt =====
-- internal/group: clusters of analyzed files.
pub mod Visual
pub mod Walk
pub mod Bucket
pub mod Skew
pub mod Rebuild
mod Examples
mod SkewExamples
mod RebuildExamples
