-- ===== src/Tests.antt =====
-- The theorems applied to concrete inputs.
mod Fixtures
mod Access
mod Metering
mod Workers
mod Billing
mod Metered
mod Delivered
mod Users
mod Queue
mod Login
mod Secrets
mod Database
mod Writes
mod Site
