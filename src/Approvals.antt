-- ===== src/Approvals.antt =====
-- packages/approvals/src: policies and the life of an approval request.
pub mod Policy
pub mod Service
pub mod TenantPolicy
pub mod Tests
