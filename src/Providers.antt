-- ===== src/Providers.antt =====
-- packages/providers: the calls of payment providers.
pub mod Breaker
pub mod Tests
