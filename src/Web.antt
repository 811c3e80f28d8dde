-- ===== src/Web.antt =====
-- Rules of the web application (apps/web/app/lib).
pub mod BusinessRules
