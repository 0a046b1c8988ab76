-- ===== src/Meta.antt =====
-- internal/meta: capture times, device keys and the metadata stage.
pub mod Fields
pub mod Extract
mod Examples
