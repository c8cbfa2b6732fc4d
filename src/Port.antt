-- ===== src/Port.antt =====
-- internal/port: the interfaces between the modules and the adapters.
pub mod CacheStore
pub mod Authorizer
