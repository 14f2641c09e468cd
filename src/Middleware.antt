-- ===== src/Middleware.antt =====
-- server/middleware: what stands before the handlers.
pub mod RateLimit
pub mod Lockout
