-- ===== src/Payments/Fees/Laws.antt =====
-- Bounds on the fees of packages/payments-core/src/fees.ts.
