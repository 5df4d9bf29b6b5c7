-- ===== src/Webhooks.antt =====
-- The Stripe webhook dispatch: core/saasmint_core/services/webhooks.py.
pub mod Read
pub mod Sync
pub mod Schedules
pub mod Checkout
pub mod Dispatch
pub mod Intake
pub mod Task
