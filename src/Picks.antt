-- ===== src/Picks.antt =====
-- internal/picks: the pick state machine, over the picks table and an exporter.
pub mod Service
pub mod Disk
pub mod Export
pub mod Delivery
mod Examples
mod ExportExamples
