-- ===== src/RateLimit/Tests.antt =====
-- The limiter on a short timeline: two requests a window, three requests, a tick, a fourth.
use goscratch.Base.{
  nat_eq, str_eq_instance, ℕ, ◌≤◌, ◌≡◌, refl, Bool, true, false, [], ◌∷◌, arith, Str, lit, str_eq,
  length, filter_by,
}
use goscratch.Base.Dict
use goscratch.Apperr.{Result, err, plain}
use goscratch.RateLimit.{Verdict, allow, window_of, after_window_start, clean_up, clean_loop}
use goscratch.RateLimit.Window.{recent}
use goscratch.RateLimit.Janitor.{Timeline, request, tick, run, spec_run, run-spec_run}
use goscratch.RateLimit.Bound.{accepted, accepted_bounded}

abbrev key : Str
key = lit "ip:10.0.0.1"

abbrev events : Timeline
events =
    (5, request key) ∷ (6, request key) ∷ (7, request key) ∷ (30, tick) ∷ (31, request key) ∷ []

abbrev verdict : Bool → ℕ → ℕ → Verdict
verdict allowed remaining reset_at = record {
  allowed = allowed;
  remaining = remaining;
  reset_at = reset_at;
}

run-events :
    run 2 10 events []
    ≡ verdict true 1 15 ∷ verdict true 0 16 ∷ verdict false 0 17 ∷ verdict true 1 41 ∷ []
unfolding run allow window_of after_window_start clean_up clean_loop filter_by Dict.get Dict.put
    str_eq lit
run-events = refl

run-spec_run_example : run 2 10 events [] ≡ spec_run 2 10 events (λ k. [])
run-spec_run_example = run-spec_run 2 10 events 0 (omega arith)

accepted_bounded_example : length (recent 31 10 (accepted 2 10 events [] (λ k. []) key)) ≤ 2
accepted_bounded_example = accepted_bounded 2 10 events 0 key 31 (omega arith) (omega arith)

abbrev failing : Result (Bool × ℕ)
failing = err (plain [])
