-- ===== src/Decorators.antt =====
-- Flask app/tenant-saas-app-fixed/tenant-saas-app/decorators.py: who makes a request, and what a
-- protected view asks of them.
pub mod Identify
pub mod Gate
