-- ===== src/Pipeline.antt =====
-- internal/pipeline: discover, the per-file stages, and clustering.
pub mod Progress
pub mod Pool
pub mod Stage
mod Examples
