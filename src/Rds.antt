-- ===== src/Rds.antt =====
-- Flask app/tenant-saas-app-fixed/tenant-saas-app/services/rds_service.py: the users of each tenant.
pub mod Users
pub mod Sql
pub mod Service
pub mod Row
pub mod Demo
