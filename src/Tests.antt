-- ===== src/Tests.antt =====
-- The theorems at concrete inputs: one env, one state, and an event of Stripe.
mod Data
mod Webhooks
mod Credits
mod Tokens
mod Billing
mod Orgs
mod Intake
mod Accounts
mod Members
mod Deletion
mod Payments
mod Catalog
