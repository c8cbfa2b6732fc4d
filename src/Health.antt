-- ===== src/Health.antt =====
-- internal/module/health: the checkers (checker.go) and the readiness answer (handler.go). The
-- pool, the cache, the queue and the authorizer are what they answer to the one call that a checker
-- makes of them. The checks run in parallel, each writing its own place in the results: a schedule
-- is the order in which they finish. The deadline is in the answers; the time stamp is left out.
pub mod Ready
mod Tests
use goscratch.Base.{
  str_eq_instance, ℕ, zero, suc, Bool, true, false, not, ◌&&◌, Option, none, some, List, [], ◌∷◌,
  map, if◌then◌else◌, Str, lit, str_eq,
}
use goscratch.Base.Int64.{lt_64}
use goscratch.Base.Dict
use goscratch.Base.Dict.{Dict}
use goscratch.Apperr.{GoError, plain, error_text, Result, ok, err}

-- The adapters as the checkers see them: `none` is the no-op one.
pub data HealthChecker : Type 0 where
  postgres_checker : Option GoError → HealthChecker
  cache_checker : Option (Result Bool) → HealthChecker
  queue_checker : Option (Option GoError) → HealthChecker
  authz_checker : Option (Result Bool) → HealthChecker

unfoldable pub name : HealthChecker → Str
name (postgres_checker ping) = lit "database"
name (cache_checker none) = lit "cache(noop)"
name (cache_checker (some exists)) = lit "cache"
name (queue_checker none) = lit "queue(noop)"
name (queue_checker (some ping)) = lit "queue"
name (authz_checker none) = lit "authz(noop)"
name (authz_checker (some enforced)) = lit "authz"

-- Check: the error says only what failed
unfoldable pub check : HealthChecker → Option GoError
check (postgres_checker none) = none
check (postgres_checker (some e)) = some (plain (lit "ping failed"))
check (cache_checker none) = none
check (cache_checker (some (ok exists))) = none
check (cache_checker (some (err e))) = some (plain (lit "ping failed"))
check (queue_checker none) = none
check (queue_checker (some none)) = none
check (queue_checker (some (some e))) = some (plain (lit "connection unavailable"))
check (authz_checker none) = none
check (authz_checker (some (ok allowed))) = none
check (authz_checker (some (err e))) = some (plain (lit "enforce failed"))

-- a result, with the empty reason for ok
pub record CheckResult : Type 0 where
  pub name : Str
  pub reason : Str

abbrev pub unwritten : CheckResult
unwritten = record { name = []; reason = [] }

unfoldable pub probe : HealthChecker → CheckResult
unfolding check name
probe c = record {
  name = name c;
  reason = elim (check c) [ none ↦ lit "" | some e ↦ error_text e ];
}

-- make([]result, n)
unfoldable pub blank : List HealthChecker → List CheckResult
blank [] = []
blank (c ∷ checkers) = unwritten ∷ blank checkers

-- the i-th check finishes
unfoldable pub finish : ℕ → List HealthChecker → List CheckResult → List CheckResult
unfolding probe
finish zero (c ∷ checkers) (r ∷ results) = probe c ∷ results
finish (suc i) (c ∷ checkers) (r ∷ results) = r ∷ finish i checkers results
finish i checkers results = results

unfoldable pub run_checks : List ℕ → List HealthChecker → List CheckResult → List CheckResult
unfolding finish
run_checks [] checkers results = results
run_checks (i ∷ schedule) checkers results =
    run_checks schedule checkers (finish i checkers results)

unfoldable pub collect : List CheckResult → Dict Str Str → Dict Str Str
unfolding Dict.put
collect [] checks = checks
collect (r ∷ results) checks =
    collect results
      (Dict.put r.name (if not (str_eq r.reason (lit "")) then r.reason else lit "ok") checks)

unfoldable pub all_healthy : List CheckResult → Bool
all_healthy [] = true
all_healthy (r ∷ results) = str_eq r.reason (lit "") && all_healthy results

pub record HealthCheckResponse : Type 0 where
  pub http_status : ℕ
  pub status : Str
  pub checks : Dict Str Str

unfoldable pub liveness_check : HealthCheckResponse
liveness_check = record { http_status = 200; status = lit "alive"; checks = [] }

-- NewHandler: a timeout that is not positive is 2 seconds
unfoldable pub readiness_timeout : ℕ → ℕ
unfolding lt_64
readiness_timeout timeout = if lt_64 0 timeout then timeout else 2000000000

unfoldable pub readiness_check : List ℕ → List HealthChecker → HealthCheckResponse
unfolding blank run_checks collect all_healthy
readiness_check schedule checkers =
    let results = run_checks schedule checkers (blank checkers) in
    record {
      http_status = if all_healthy results then 200 else 503;
      status = if all_healthy results then lit "ready" else lit "degraded";
      checks = collect results [];
    }
