-- ===== src/Domain.antt =====
-- What the administration decides about its own tables: crates/summer-domain/src.
pub mod Sync
pub mod Table
pub mod Dict
