-- ===== src/Billing.antt =====
-- Flask app/tenant-saas-app-fixed/tenant-saas-app/services/billing_service.py: invoices from the
-- monthly aggregate. Its floats, the query of DynamoDB and the current month are parameters.
pub mod Money
pub mod Usage
pub mod Invoice
pub mod Metered
