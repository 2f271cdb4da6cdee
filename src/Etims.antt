-- ===== src/Etims.antt =====
-- The modules of packages/etims/src.
pub mod Tax
mod Tests
