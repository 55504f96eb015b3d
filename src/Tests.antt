-- ===== src/Tests.antt =====
-- The theorems at concrete inputs, and runs of the definitions.
mod Data
mod Basics
mod Payments
mod Lifecycle
mod Subscriptions
mod Plans
mod Requests
mod Providers
mod Secrets
mod Tenants
mod Backoffice
