-- ===== src/Middleware.antt =====
-- internal/middleware: the rate limiter, the check of API keys, and the chain that the router builds
-- of them.
pub mod Backoffice
pub mod RateLimit
pub mod Auth
pub mod Router
