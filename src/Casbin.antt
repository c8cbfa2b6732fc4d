-- ===== src/Casbin.antt =====
-- internal/adapter/casbin: the authorizer over a Casbin enforcer, with its decision cache.
pub mod Cache
pub mod Adapter
pub mod Watcher
