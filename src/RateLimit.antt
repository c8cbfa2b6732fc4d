-- ===== src/RateLimit.antt =====
-- internal/platform/http/middleware/rate_limit.go: the sliding-window rate limiter. Times are
-- nanoseconds from an origin before the program's start; the clock is read by the caller, so `now`
-- is an argument. time.Add and After are exact here (int64 nanoseconds span 292 years). The mutex
-- makes Allow and a round of the janitor atomic.
pub mod Window
pub mod Janitor
pub mod Bound
pub mod Handler
mod Tests
use goscratch.Base.{
  nat_eq, str_eq_instance, ℕ, ◌+◌, ◌-◌, Bool, true, false, Option, none, some, List, [], ◌∷◌, ◌++◌,
  if◌then◌else◌, ltb, leb, ◌==◌, Str, lit, length, filter_by,
}
use goscratch.Base.Dict
use goscratch.Base.Dict.{Dict}

pub record SlidingWindow : Type 0 where
  pub timestamps : List ℕ
  pub expires_at : ℕ

abbrev pub Windows : Type 0
Windows = Dict Str SlidingWindow

pub record Verdict : Type 0 where
  pub allowed : Bool
  pub remaining : ℕ
  pub reset_at : ℕ

-- ts.After(now.Add(-window)), without a time before the origin
unfoldable pub after_window_start : ℕ → ℕ → ℕ → Bool
after_window_start now window ts = ltb now (ts + window)

-- the window of a key; a new one is empty
unfoldable pub window_of : Str → Windows → SlidingWindow
window_of key windows = elim (Dict.get key windows) [
  | none ↦ record { timestamps = []; expires_at = 0 }
  | some sw ↦ sw
]

unfoldable pub allow : ℕ → Str → ℕ → ℕ → Windows → Verdict × Windows
allow now key max_reqs window windows =
    let sw = window_of key windows in
    let valid = filter_by (after_window_start now window) sw.timestamps in
    let reset_at = now + window in
    let count = length valid in
    if leb max_reqs count
    then (
      record { allowed = false; remaining = 0; reset_at = reset_at },
      Dict.put key (record { timestamps = valid; expires_at = reset_at }) windows,
    )
    else (
      record { allowed = true; remaining = max_reqs - count - 1; reset_at = reset_at },
      Dict.put key (record { timestamps = valid ++ now ∷ []; expires_at = reset_at }) windows,
    )

-- one tick of cleanup: the loop over the map deletes the windows whose expiry has passed
unfoldable pub clean_loop : ℕ → Windows → Windows → Windows
clean_loop now [] windows = windows
clean_loop now ((key, _) ∷ rest) windows = clean_loop now rest (elim (Dict.get key windows) [
  | none ↦ windows
  | some sw ↦ if ltb sw.expires_at now then Dict.remove key windows else windows
])

unfoldable pub clean_up : ℕ → Windows → Windows
clean_up now windows = clean_loop now windows windows
