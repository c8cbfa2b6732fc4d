-- ===== src/Port/CacheStore.antt =====
-- internal/port/cache.go: the cache as the auth module uses it, what a working cache promises, and
-- internal/adapter/cache/noop.go. Redis itself is outside the repository; the Redis adapter only
-- forwards to it. A call that returns only an error gives `none` for nil.
use goscratch.Base.{ℕ, ◌≡◌, Option, none, some, if◌then◌else◌, Str, lit, str_eq, has_prefix}
use goscratch.Apperr.{GoError, plain, Result, ok, err}

pub record CacheStore : Type 1 where
  pub Store : Type 0
  pub get : Str → Store → Result Str
  pub set : Str → Str → ℕ → Store → Option GoError × Store
  pub delete : Str → Store → Option GoError × Store
  pub delete_by_prefix : Str → Store → Option GoError × Store

abbrev pub err_cache_miss : GoError
err_cache_miss = plain (lit "cache: key not found")

abbrev pub err_cache_unavailable : GoError
err_cache_unavailable = plain (lit "cache: backend unavailable")

-- What a call that reports success has done. Nothing is said of calls that fail, and the statements
-- speak of the time before the entry's TTL has passed.
pub record IsStore (c : CacheStore) : Type 0 where
  pub get-set :
      (k j v : Str) (ttl : ℕ) (s : c.Store)
      → (c.set k v ttl s).0 ≡ none
      → c.get j (c.set k v ttl s).1 ≡ (if str_eq k j then ok v else c.get j s)
  pub get-delete :
      (k j : Str) (s : c.Store)
      → (c.delete k s).0 ≡ none
      → c.get j (c.delete k s).1 ≡ (if str_eq k j then err err_cache_miss else c.get j s)
  pub get-delete_by_prefix :
      (p j : Str) (s : c.Store)
      → (c.delete_by_prefix p s).0 ≡ none
      → c.get j (c.delete_by_prefix p s).1
        ≡ (if has_prefix j p then err err_cache_miss else c.get j s)

-- NoOpCache: reads miss, writes succeed and keep nothing, revocation by prefix is refused.
abbrev pub no_op_cache : CacheStore
no_op_cache = record {
  Store = Unit;
  get = λ k s. err err_cache_miss;
  set = λ k v ttl s. (none, s);
  delete = λ k s. (none, s);
  delete_by_prefix = λ p s. (some err_cache_unavailable, s);
}
