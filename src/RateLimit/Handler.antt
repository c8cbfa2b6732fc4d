-- ===== src/RateLimit/Handler.antt =====
-- The middleware around a backend, and the Redis backend. port.Cache's SlidingWindowAllow is a
-- parameter: for Redis it is a Lua script that runs outside the program.
use goscratch.Base.{
  ℕ, ◌+◌, ◌≡◌, ◌↔◌, refl, Bool, true, false, not, Option, none, some, [], ◌++◌, arith,
  if◌then◌else◌, Str, str_eq, lit,
}
use goscratch.Base.Int.{ℤ, pos, leb_ℤ}
use goscratch.Apperr.{GoError, AppError, Result, ok, err, new, http_status}
use goscratch.RateLimit.{Verdict}

-- what Allow returns beside its error
pub record Answer : Type 0 where
  pub verdict : Verdict
  pub error : Option GoError

-- the X-RateLimit headers, as numbers
pub record Headers : Type 0 where
  pub limit : ℕ
  pub remaining : ℕ
  pub reset : ℕ

-- c.Next(), or response.Fail
pub data Outcome : Type 0 where
  next : Outcome
  fail : AppError → Outcome

unfoldable pub service_unavailable : AppError
unfolding new
service_unavailable =
    new (lit "RATE_LIMIT_ERROR") (lit "Service temporarily unavailable, please try again later") 503

unfoldable pub too_many_requests : AppError
unfolding new
too_many_requests =
    new (lit "RATE_LIMIT_EXCEEDED") (lit "Too many requests, please try again later") 429

-- The defaults that RateLimit applies; a window is in nanoseconds.
unfoldable pub effective_max : ℤ → ℤ
effective_max max_reqs = if leb_ℤ max_reqs (pos 0) then pos 100 else max_reqs

unfoldable pub effective_window : ℤ → ℤ
effective_window window = if leb_ℤ window (pos 0) then pos 60000000000 else window

-- the user id in the context, where there is one, and the client's address
unfoldable pub default_key_func : Option Str → Str → Str
default_key_func none ip = lit "ip:" ++ ip
default_key_func (some user) ip =
    if not (str_eq user []) then lit "user:" ++ user else lit "ip:" ++ ip

-- the handler, from the answer of the backend; the seconds of the reset time are its `/ 10^9`
unfoldable pub handle : Bool → ℕ → (ℕ → ℕ) → Answer → Option Headers × Outcome
handle fail_closed max_reqs unix answer = elim answer.error [
  | some e ↦ (none, if fail_closed then fail service_unavailable else next)
  | none ↦ (
    some (record {
      limit = max_reqs;
      remaining = answer.verdict.remaining;
      reset = unix answer.verdict.reset_at;
    }),
    if not answer.verdict.allowed then fail too_many_requests else next,
  )
]

-- redisBackend.Allow, from what the cache returns: allowed and remaining, or an error
unfoldable pub redis_allow : Result (Bool × ℕ) → ℕ → ℕ → ℕ → Answer
redis_allow (err e) now max_reqs window = record {
  verdict = record { allowed = true; remaining = max_reqs; reset_at = now + window };
  error = some e;
}
redis_allow (ok (allowed, remaining)) now max_reqs window = record {
  verdict = record { allowed = allowed; remaining = remaining; reset_at = now + window };
  error = none;
}

-- With the Redis backend a request goes on exactly if the cache allowed it, or if the cache failed
-- and the limiter fails open; a refusal is 429 where the cache refused it and 503 where the cache
-- failed; and the headers are sent exactly if the cache did not fail.
pub redis_handler_decides :
    (reply : Result (Bool × ℕ)) (fail_closed : Bool) (unix : ℕ → ℕ) (now max_reqs window : ℕ)
    → let (headers, outcome) =
        handle fail_closed max_reqs unix (redis_allow reply now max_reqs window) in
      (outcome ≡ elim reply [
        | ok (allowed, _) ↦ if allowed then next else fail too_many_requests
        | err e ↦ if fail_closed then fail service_unavailable else next
      ])
      × (http_status too_many_requests ≡ 429)
      × (http_status service_unavailable ≡ 503)
      × ((headers ≡ none) ↔ ((e : GoError) × (reply ≡ err e)))
unfolding handle redis_allow too_many_requests service_unavailable
redis_handler_decides (ok (true, n)) fail_closed unix now max_reqs window =
    (refl, refl, refl, (λ h. cc, λ h. absurd (ground arith)))
redis_handler_decides (ok (false, n)) fail_closed unix now max_reqs window =
    (refl, refl, refl, (λ h. cc, λ h. absurd (ground arith)))
redis_handler_decides (err e) true unix now max_reqs window =
    (refl, refl, refl, (λ h. (e, refl), λ h. refl))
redis_handler_decides (err e) false unix now max_reqs window =
    (refl, refl, refl, (λ h. (e, refl), λ h. refl))
