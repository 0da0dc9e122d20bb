-- ===== src/Http.antt =====
-- internal/connector/http: what the connectors share to guard their requests.
pub mod Auth
pub mod Breaker
pub mod RateLimit
pub mod Retry
pub mod Tests
