-- ===== src/Lib.antt =====
-- billax: a payment orchestration service. Tenants define plans and subscriptions; payments are
-- charged through payment providers; a background job renews subscriptions and expires unpaid ones.
--
-- The parts, and the files that model them (paths from the root of the repository):
--   * internal/errors, internal/httputil: sentinel errors, their HTTP statuses and codes, and the
--     envelope of an error answer. Errors, Errors/Respond; Errors/Roots has the tables on sentinels.
--   * internal/validation: the field validators and the accumulating error. Validation.
--   * internal/provider: the types, the registry and the adapter; a provider is a record of functions.
--     Provider.
--   * internal/plan: Plan (types), Plan/Slug (validation), Plan/Repository (statements), Plan/List (List
--     with its cursors), Plan/Service (CreateOrGet, GetByID, GetBySlug, Update, Delete).
--   * internal/payment: Payment (types), Payment/Repository, Payment/List (List, with the cursors of
--     Plan/List; what a page is stands in its Pages), Payment/Service (CreatePayment).
--   * internal/subscription: Subscription (types), Subscription/Periods (calculatePeriodEnd,
--     nextPeriodEnd), Subscription/Transitions (validateStatusTransition), Subscription/Tags
--     (validateTags, normalizeTags), Subscription/Repository and Subscription/Due (statements and the
--     queries of the job), Subscription/Service (Create, GetByKey, Update, Cancel),
--     Subscription/Lifecycle (the job of lifecycle.go).
--   * internal/middleware: Middleware/RateLimit (rate_limit.go), Middleware/Auth (auth.go),
--     Middleware/Router (the order in which router.go chains them), Middleware/Backoffice
--     (backoffice.go).
--   * internal/provider/mercadopago: MercadoPago (wire types, mapper.go), MercadoPago/Client (client.go
--     with its retries), MercadoPago/Signature (webhook.go and HandleWebhook), MercadoPago/Gateway (the
--     rest of provider.go); MercadoPago/Retry, Answers, Charges, Header and Signed have the
--     theorems.
--   * internal/webhook: Webhook, with its theorems in Webhook/Accepts.
--   * internal/crypto: Crypto. internal/providercredentials: Credentials (rows), Credentials/Codec (from
--     a config to its column and back), Credentials/Repository, Credentials/Service; Credentials/Store
--     and Credentials/Refines see the table as a map.
--   * internal/tenant: Tenant (model.go), Tenant/Keygen, Tenant/Slug, Tenant/Repository (tenants) and
--     Tenant/Keys (API keys) for repository.go, Tenant/Service with the theorems in its children.
--   * internal/backoffice: Backoffice (model.go), Backoffice/Token (jwt.go), Backoffice/Repository,
--     Backoffice/Password (validatePassword, generateTemporaryPassword), Backoffice/Service.
-- The services call their repositories and, for payments, the provider adapter; the lifecycle job
-- calls the payment service and the subscription repository; a webhook finds its tenant through the
-- credentials and goes to the connector through the adapter; the keys that the tenant service makes are
-- those that the middleware checks, and so are the tokens that a login in the backoffice gives.
--
-- World holds what they share: the rows of the tables, the charges sent to providers, the clock and
-- the source of uuids. An operation takes a world and returns its result beside the world it leaves.
-- A list of faults says which of the statements to come fail with an error of the driver; a statement
-- without an entry succeeds. The clock stands still during one operation. Uuids are numbers, 0 is
-- `uuid.Nil`. A text is the list of its code points, a header of a request the list of its bytes;
-- texts with the code point 0, which PostgreSQL refuses, are not looked at. The case tables of Unicode
-- above ASCII, the hash of an API key, the credentials that the job reads, the random source, AES-GCM,
-- HMAC, base64, bcrypt, the JWT library, encoding/json, the network and the parsers of times and uuids
-- are parameters. A time is a day and its nanoseconds in UTC, not before 1970. Integers have the range
-- of the source where it wraps around or a column limits it. Token buckets count in parts of
-- 1/60000 of a token in place of float64.
--
-- No definition runs on fuel but `show_digits`, which has one round more than the number, and
-- `show_digits_fuel` shows that more fuel changes nothing; the retries of the client are counted as in
-- the source.
--
-- Not modelled: the list operation of subscriptions, HTTP handlers but that of webhooks,
-- row-level security, configuration, logging, metrics, the wiring of cmd/payd and the
-- web interface.
pub mod Prelude
pub mod Errors
pub mod Result
pub mod Validation
pub mod Calendar
pub mod Plan
pub mod Provider
pub mod Payment
pub mod Subscription
pub mod World
pub mod Middleware
pub mod MercadoPago
pub mod Crypto
pub mod Credentials
pub mod Tenant
pub mod Backoffice
pub mod Webhook
pub mod Tests
