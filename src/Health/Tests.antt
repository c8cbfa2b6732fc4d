-- ===== src/Health/Tests.antt =====
-- Two checks that finish in the other order, one of which fails.
use goscratch.Base.{
  ℕ, ◌<◌, ◌≡◌, arith, true, none, some, List, [], ◌∷◌, map, if◌then◌else◌, length, lit,
}
use goscratch.Apperr.{plain, err}
use goscratch.Health.{
  HealthChecker, postgres_checker, cache_checker, probe, collect, readiness_check,
}
use goscratch.Health.Ready.{has, all_pass, readiness_check_lem}

abbrev checkers : List HealthChecker
checkers = postgres_checker none ∷ cache_checker (some (err (plain (lit "down")))) ∷ []

both : (i : ℕ) → i < length checkers → has i (1 ∷ 0 ∷ []) ≡ true
unfolding has
both i h = ground arith

readiness_check_lem_example : readiness_check (1 ∷ 0 ∷ []) checkers ≡ record {
  http_status = if all_pass checkers then 200 else 503;
  status = if all_pass checkers then lit "ready" else lit "degraded";
  checks = collect (map probe checkers) [];
}
readiness_check_lem_example = readiness_check_lem (1 ∷ 0 ∷ []) checkers both
