-- ===== src/Repositories.antt =====
-- The repositories: apps/billing/repositories.py, over helpers.py.
pub mod Customers
pub mod Subscriptions
pub mod Events
