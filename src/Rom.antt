-- ===== src/Rom.antt =====
-- The RoM scheduler: whether a failed decoding request has its cache migrated or recomputed.
pub mod Config
pub mod Decision
pub mod LocalScheduler
pub mod Logger
