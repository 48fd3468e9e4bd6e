-- ===== src/Facts.antt =====
-- internal/facts: the verbatim needles that the collector protects.
pub mod Unique
pub mod Extract
pub mod Merge
pub mod Laws
pub mod Kept
