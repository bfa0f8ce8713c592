-- ===== src/Middleware.antt =====
-- src/middleware: the services between the connection and the router.
pub mod Service
pub mod Auth
pub mod RateLimiter
pub mod Semaphore
pub mod Concurrency
pub mod Logging
