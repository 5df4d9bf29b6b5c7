-- ===== src/Payments.antt =====
-- The billing endpoints: apps/billing/views.py, over validated request data.
pub mod Prices
pub mod Access
pub mod Checkout
pub mod Changes
pub mod Authority
pub mod Biller
pub mod Confined
pub mod Confinement
pub mod Finish
pub mod Rights
pub mod Late
pub mod Redirects
