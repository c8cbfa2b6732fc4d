-- ===== src/Health/Ready.antt =====
-- The readiness answer does not depend on the order in which the checks finish.
use goscratch.Base.{
  str_eq_instance, ℕ, zero, suc, ◌<◌, ◌≡◌, refl, ap, ◌∙◌, arith, Bool, true, false, ◌&&◌, ◌||◌,
  ◌==◌, none, some, List, [], ◌∷◌, map, if◌then◌else◌, length, lit, str_eq,
}
use goscratch.Apperr.{error_text, ok, err}
use goscratch.Health.{
  HealthChecker, postgres_checker, cache_checker, queue_checker, authz_checker, check, CheckResult,
  unwritten, probe, blank, finish, run_checks, collect, all_healthy, readiness_check,
}

unfoldable pub has : ℕ → List ℕ → Bool
has i [] = false
has i (j ∷ schedule) = (i == j) || has i schedule

-- the results when the checks that `done` says have finished
unfoldable mixed : (ℕ → Bool) → List HealthChecker → List CheckResult
mixed done [] = []
mixed done (c ∷ checkers) =
    (if done 0 then probe c else unwritten) ∷ mixed (λ i. done (suc i)) checkers

mixed-cong :
    (d e : ℕ → Bool) (checkers : List HealthChecker)
    → ((i : ℕ) → i < length checkers → d i ≡ e i)
    → mixed d checkers ≡ mixed e checkers
unfolding mixed
mixed-cong d e [] same = refl
mixed-cong d e (c ∷ checkers) same =
    rw
      (
        same 0 (omega arith),
        mixed-cong (λ i. d (suc i)) (λ i. e (suc i)) checkers (λ i lt. same (suc i) (omega arith)),
      )
      refl

finish-mixed :
    (i : ℕ) (done : ℕ → Bool) (checkers : List HealthChecker)
    → finish i checkers (mixed done checkers) ≡ mixed (λ j. (j == i) || done j) checkers
unfolding mixed finish
finish-mixed zero done [] = refl
finish-mixed (suc i) done [] = refl
finish-mixed zero done (c ∷ checkers) =
    ap (λ t. probe c ∷ t)
      (mixed-cong (λ j. done (suc j)) (λ j. (suc j == 0) || done (suc j)) checkers
        (λ j lt. ground arith))
finish-mixed (suc i) done (c ∷ checkers) =
    let first : done 0 ≡ ((0 == suc i) || done 0) = ground arith in
    rw (finish-mixed i (λ j. done (suc j)) checkers) (
      ap (λ t. (if done 0 then probe c else unwritten) ∷ t)
        (mixed-cong (λ j. (j == i) || done (suc j)) (λ j. (suc j == suc i) || done (suc j)) checkers
          (λ j lt. ground arith))
      ∙ ap
          (λ b.
            (if b then probe c else unwritten)
            ∷ mixed (λ j. (suc j == suc i) || done (suc j)) checkers)
          first)

run-mixed :
    (schedule : List ℕ) (done : ℕ → Bool) (checkers : List HealthChecker)
    → run_checks schedule checkers (mixed done checkers)
      ≡ mixed (λ j. has j schedule || done j) checkers
unfolding run_checks has
run-mixed [] done checkers = refl
run-mixed (i ∷ schedule) done checkers =
    rw (finish-mixed i done checkers, run-mixed schedule (λ j. (j == i) || done j) checkers)
      (mixed-cong _ _ checkers (λ j lt. ground arith))

blank-mixed : (checkers : List HealthChecker) → blank checkers ≡ mixed (λ i. false) checkers
unfolding blank mixed
blank-mixed [] = refl
blank-mixed (c ∷ checkers) = ap (λ t. unwritten ∷ t) (blank-mixed checkers)

mixed-all : (checkers : List HealthChecker) → mixed (λ i. true) checkers ≡ map probe checkers
unfolding mixed
mixed-all [] = refl
mixed-all (c ∷ checkers) = ap (λ t. probe c ∷ t) (mixed-all checkers)

-- all checks pass
unfoldable pub all_pass : List HealthChecker → Bool
unfolding check
all_pass [] = true
all_pass (c ∷ checkers) = (elim (check c) [ none ↦ true | some e ↦ false ]) && all_pass checkers

passes :
    (c : HealthChecker)
    → str_eq (probe c).reason (lit "") ≡ (elim (check c) [ none ↦ true | some e ↦ false ])
unfolding probe check error_text str_eq lit
passes (postgres_checker none) = refl
passes (postgres_checker (some e)) = refl
passes (cache_checker none) = refl
passes (cache_checker (some (ok exists))) = refl
passes (cache_checker (some (err e))) = refl
passes (queue_checker none) = refl
passes (queue_checker (some none)) = refl
passes (queue_checker (some (some e))) = refl
passes (authz_checker none) = refl
passes (authz_checker (some (ok allowed))) = refl
passes (authz_checker (some (err e))) = refl

healthy-probe :
    (checkers : List HealthChecker) → all_healthy (map probe checkers) ≡ all_pass checkers
unfolding all_healthy all_pass
healthy-probe [] = refl
healthy-probe (c ∷ checkers) = rw (passes c, healthy-probe checkers) refl

-- In whatever order the checks finish, once each of them has: the results are those of the checks
-- one after the other, so the answer is the same for every order, and it is 200 with the status
-- "ready" when all checks pass and 503 with "degraded" when one does not.
pub readiness_check_lem :
    (schedule : List ℕ) (checkers : List HealthChecker)
    → ((i : ℕ) → i < length checkers → has i schedule ≡ true)
    → readiness_check schedule checkers ≡ record {
      http_status = if all_pass checkers then 200 else 503;
      status = if all_pass checkers then lit "ready" else lit "degraded";
      checks = collect (map probe checkers) [];
    }
unfolding readiness_check
readiness_check_lem schedule checkers all =
    let finished : run_checks schedule checkers (blank checkers) ≡ map probe checkers =
      rw (blank-mixed checkers, run-mixed schedule (λ i. false) checkers)
        (mixed-cong _ (λ i. true) checkers (λ i lt. ground (arith, all i lt))
          ∙ mixed-all checkers) in
    rw (finished, healthy-probe checkers, readiness_check) refl
