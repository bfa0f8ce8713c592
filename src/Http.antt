-- ===== src/Http.antt =====
-- src/http: requests, responses and the router.
pub mod Response
pub mod Request
pub mod Router
