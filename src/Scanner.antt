-- ===== src/Scanner.antt =====
-- internal/scanner: the walk over the scan root, the table of formats and the content hash.
pub mod Formats
pub mod Hash
pub mod Tree
pub mod Walk
mod Examples
