-- ===== src/Finance.antt =====
-- The payment rules of apps/web/app/lib/payment-guard.ts.
pub mod PaymentGuard
