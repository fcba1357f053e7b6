-- ===== src/Metering.antt =====
-- Flask app/tenant-saas-app-fixed/tenant-saas-app/metering_lambda/handler.py: usage events taken
-- from the queue into a ledger and a monthly aggregate.
pub mod Json
pub mod Event
pub mod Store
pub mod Handler
