-- ===== src/Billing.antt =====
-- app/services/billing.py and the webhook of app/api/routes/billing.py.
pub mod Events
pub mod Subscriptions
pub mod Webhook
pub mod Applied
pub mod Outcome
pub mod Deliveries
pub mod Listing
pub mod Examples
