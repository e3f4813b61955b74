-- ===== src/Middleware.antt =====
-- backend/src/middleware: the API key authentication and the rate limiters of the HTTP server.
pub mod Auth
pub mod RateLimit
mod Tests
