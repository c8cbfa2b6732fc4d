-- ===== src/Lib.antt =====
-- Verification of goscratch, a starter kit for HTTP services in Go.
--
-- The program is a modular monolith. HTTP middleware (internal/platform/http/middleware) limits the
-- rate of requests, finds the user and asks an authorizer whether the request may pass; the modules
-- (internal/module) hold the use cases; ports (internal/port) are the interfaces to the adapters
-- (internal/adapter): a Casbin authorizer with a cache of its decisions, a Redis cache, storage, a
-- broker of server-sent events; a worker (internal/worker) runs jobs from a queue. Modelled is the
-- logic of these parts. What is outside the repository (the Casbin enforcer, Redis, the database,
-- bcrypt, the JWT signer, JSON and base64 coders, clocks, random sources, the queue) is a parameter,
-- with what the code relies on as named hypotheses, which the Tests modules fill with concrete
-- functions.
--
-- Files and the code that they are about:
--   Base          Boolean tests, lists, byte strings, maps as association lists (Base/Dict), signed
--                 integers (Base/Int) and 64-bit machine integers (Base/Int64)
--   Apperr        pkg/apperr/error.go: application errors, Go's error values, results
--   Response      pkg/response/response.go: the error replies
--   Port          internal/port/cache.go, internal/port/authorizer.go, with the no-op adapters
--                 internal/adapter/cache/noop.go and internal/adapter/casbin/noop.go
--   Casbin/Cache  internal/adapter/casbin/cache.go: the LRU cache of decisions; cacheKey, get, put,
--                 evictLRU, invalidateSub, flush and len are cache_key, get, put, evict_lru,
--                 invalidate_sub, flush and len
--   Casbin/Adapter  internal/adapter/casbin/casbin.go: each method of Adapter by its name, the
--                 callback of the watcher as update_callback
--   Cursor        internal/shared/domain/cursor.go: cursors, their tokens, pages
--   RateLimit     internal/platform/http/middleware/rate_limit.go: the sliding window as allow, the
--                 janitor as clean_up, the Redis backend as redis_allow, the middleware as handle
--   Auth          internal/module/auth/usecase/auth_usecase.go: login, refresh, logout and
--                 revoke_all_for_user
--   Authz         internal/platform/http/middleware/authz.go: the authorization middleware, over any
--                 authorizer and (Authz/CasbinDecider) over the Casbin adapter
--   Authn         internal/platform/http/middleware/auth.go: Auth and OptionalAuth
--   Role          internal/module/role/domain/role.go and usecase/role_usecase.go
--   Worker        internal/worker/job.go, worker.go and publisher.go
--   Sse           internal/adapter/sse/broker.go: channels as buffers in a heap, a panic as none
--   Storage       internal/module/storage/usecase/storage_usecase.go and domain, dto, port/storage.go
--   Storage/Local  internal/adapter/storage/local.go, with filepath.Clean and filepath.Join of Unix
--   User          internal/module/user/usecase/user_usecase.go, with WithTx of
--                 internal/platform/database/postgres.go as with_tx
--   UserQueries   internal/module/user/repository/sqlc/user.sql.go: each SQL query as a function on
--                 the table of users
--   UserStore     internal/module/user/repository/user_repository.go and pkg/pgutil/pgutil.go; the
--                 repository that User takes is pg_repo
--   Casbin/Watcher  internal/adapter/casbin/watcher_memory.go and watcher_redis.go
--   RedisCache    internal/adapter/cache/redis.go: the methods by their names, DeleteByPrefix's loop as
--                 sweep; the laws of Port.CacheStore, on which Auth runs, hold of it for prefixes
--                 that a glob pattern takes literally, as those of UUIDs are
--   Queue         internal/adapter/queue/rabbitmq.go: the methods by their names, the consumer's loop as
--                 run_consumer on the events that its channels give
--   Config        internal/platform/config/config.go: a struct as its fields with their tags
--                 (Config/Shape)
--   Audit         internal/port/auditor.go and internal/adapter/audit/postgres.go; the
--                 audit_decorator.go of the modules user, auth, storage and job are Audit/Decorators
--   Job           internal/module/job/usecase/job_usecase.go
--   Cleanup       internal/worker/handlers/audit_cleanup_handler.go
--   Health        internal/module/health/checker.go and handler.go
--
-- How the parts meet: Authz runs over the interface Port.Authorizer, which Authz/CasbinDecider
-- fills with the Casbin adapter and the theorems on its cache; Auth runs over Port.CacheStore and
-- its laws; User uses Auth as the revoker of sessions and Cursor for its pages, and UserStore fills
-- its repository; the watchers deliver to the callback of Casbin/Adapter; Storage/Local resolves
-- the paths that Storage cleans; Audit/Decorators wraps the use cases of User; Job publishes
-- through Worker; Cleanup deletes rows of Audit.
--
-- A property of code that changes state is stated of the operations as functions from a state to a
-- result and the next state. Histories are lists of commands (Sse/Commands, RateLimit/Janitor) or a
-- step relation (Casbin/Adapter/Reach). A call that panics in Go is none. Fuel stands in four
-- places: in Worker.retries, where max_retry + 1 is enough, since each retry raises the count of
-- attempts; in the client that follows the pages of users (UserStore/Walk), where one request more
-- than there are rows is enough, since a page that has a next one is not empty; in Cleanup.cleanup,
-- where one batch more than there are rows is enough, since a batch that goes on has deleted a row;
-- and in RedisCache.sweep, where the cursors of SCAN come to an end. All other loops run over lists
-- or over a number of attempts.
--
-- Machine integers keep their wrap-around where a counter or a product can grow (Base/Int64, for
-- Worker, Queue, Config and the times of Auth); cursor limits and configured sizes are signed; times and durations of
-- the rate limiter are numbers that do not wrap.
--
-- Not modelled: HTTP parsing and handlers, the S3 and mail adapters, the wiring of the program,
-- logging, metrics and traces, because they only forward to libraries; input validation by struct
-- tags, which an external library reads; the geometry, because it computes with floating-point
-- numbers; goroutines and locks, except that calls under one lock are taken as the steps of a
-- history (so the put of a decision is a step of its own in Casbin/Adapter/Reach, but a change of
-- the policy is one step with its invalidation), and that the parallel checks of Health and the
-- dispatch of Casbin/Watcher are sequences of steps.
pub mod Base
pub mod Apperr
pub mod Response
pub mod Port
pub mod Casbin
pub mod Cursor
pub mod RateLimit
pub mod Auth
pub mod Authn
pub mod Authz
pub mod Role
pub mod Worker
pub mod Sse
pub mod Storage
pub mod User
pub mod UserQueries
pub mod UserStore
pub mod Queue
pub mod Config
pub mod Audit
pub mod Job
pub mod Cleanup
pub mod Health
pub mod RedisCache
