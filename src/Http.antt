-- ===== src/Http.antt =====
-- src/http: requests, responses and static files.
pub mod Request
pub mod Response
pub mod Router
