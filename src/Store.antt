-- ===== src/Store.antt =====
-- internal/store: the SQLite tables, as values that the statements of the repositories transform.
pub mod Files
pub mod Clusters
pub mod Picks
pub mod FilesRepo
pub mod Kv
pub mod Signals
pub mod Thumbs
pub mod Migrate
pub mod Metadata
pub mod Analyzed
mod Examples
mod ClusterExamples
mod SignalExamples
