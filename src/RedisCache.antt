-- ===== src/RedisCache.antt =====
-- internal/adapter/cache/redis.go: the Redis cache. The Redis client is the parameter `Client`, an
-- interface of the commands that the adapter sends; `none` in the reply of GET is redis.Nil. An
-- int64 is its 64 bits. DeleteByPrefix loops until the cursor of SCAN is 0 again, here on fuel.
pub mod Sweep
mod Tests
use goscratch.Base.{
  ℕ, zero, suc, Bool, true, false, Option, none, some, List, [], ◌∷◌, ◌++◌, if◌then◌else◌, ◌==◌,
  ltb, length, Str, lit,
}
use goscratch.Base.Int64.{lt_64}
use goscratch.Apperr.{GoError, plain, wrapped, Result, ok, err}
use goscratch.Port.CacheStore.{err_cache_miss}

pub record Client : Type 1 where
  pub State : Type 0
  pub get : Str → State → Result (Option Str)
  pub set : Str → Str → ℕ → State → Option GoError × State
  pub del : List Str → State → Option GoError × State
  -- the cursor, the pattern and the count; the keys and the next cursor
  pub scan : ℕ → Str → ℕ → State → Result (List Str × ℕ)
  pub exists : Str → State → Result ℕ
  pub incr : Str → State → Result ℕ × State
  pub decr : Str → State → Result ℕ × State
  pub expire : Str → ℕ → State → Option GoError × State
  -- slidingWindowScript: the key, the time, the window and the maximum
  pub run_script : Str → ℕ → ℕ → ℕ → State → Result (List ℕ) × State

-- an error that says which command failed
unfoldable pub failing : Str → Option GoError → Option GoError
failing what none = none
failing what (some e) = some (wrapped what e)

module _ (R : Client) where
  open R use {State}

  unfoldable pub get : Str → State → Result Str
  get key s = elim (R.get key s) [
    | err e ↦ err (wrapped (lit "redis get error") e)
    | ok found ↦ elim found [ none ↦ err err_cache_miss | some v ↦ ok v ]
  ]

  unfoldable pub set : Str → Str → ℕ → State → Option GoError × State
  unfolding failing
  set key value ttl s =
      let (failure, s') = R.set key value ttl s in (failing (lit "redis set error") failure, s')

  unfoldable pub delete : Str → State → Option GoError × State
  unfolding failing
  delete key s =
      let (failure, s') = R.del (key ∷ []) s in (failing (lit "redis delete error") failure, s')

  -- the DEL of a page of keys, which is not sent when there is none
  unfoldable pub del_page : List Str → State → Option GoError × State
  del_page [] s = (none, s)
  del_page (key ∷ keys) s = R.del (key ∷ keys) s

  -- the loop of DeleteByPrefix; `none` when the fuel runs out
  unfoldable pub sweep : ℕ → ℕ → Str → State → Option (Option GoError × State)
  unfolding del_page
  sweep zero cursor prefix s = none
  sweep (suc fuel) cursor prefix s = elim (R.scan cursor (prefix ++ lit "*") 100 s) [
    | err e ↦ some (some (wrapped (lit "redis scan error") e), s)
    | ok (keys, next) ↦
        let (failure, s') = del_page keys s in
        let rest = sweep fuel next prefix s' in
        elim failure [
          | some e ↦ some (some (wrapped (lit "redis del error") e), s')
          | none ↦ if next == 0 then some (none, s') else rest
        ]
  ]

  unfoldable pub exists : Str → State → Result Bool
  unfolding lt_64
  exists key s = elim (R.exists key s) [
    | err e ↦ err (wrapped (lit "redis exists error") e)
    | ok n ↦ ok (lt_64 0 n)
  ]

  -- `marshalled` is what json.Marshal makes of the value
  unfoldable pub set_json : Str → Result Str → ℕ → State → Option GoError × State
  unfolding set
  set_json key (err e) ttl s = (some (wrapped (lit "failed to marshal json") e), s)
  set_json key (ok data') ttl s = set key data' ttl s

  unfoldable pub get_json : {A : Type 0} → (Str → Result A) → Str → State → Result A
  unfolding get
  get_json unmarshal key s = elim (get key s) [
    | err e ↦ err e
    | ok data' ↦ elim (unmarshal data') [
      | err e ↦ err (wrapped (lit "failed to unmarshal json") e)
      | ok a ↦ ok a
    ]
  ]

  -- the number that INCR or DECR returns, or the error
  unfoldable pub counted : Str → Result ℕ → Result ℕ
  counted what (ok n) = ok n
  counted what (err e) = err (wrapped what e)

  unfoldable pub increment : Str → State → Result ℕ × State
  unfolding counted
  increment key s = let (reply, s') = R.incr key s in (counted (lit "redis incr error") reply, s')

  unfoldable pub decrement : Str → State → Result ℕ × State
  unfolding counted
  decrement key s = let (reply, s') = R.decr key s in (counted (lit "redis decr error") reply, s')

  unfoldable pub expire : Str → ℕ → State → Option GoError × State
  unfolding failing
  expire key ttl s =
      let (failure, s') = R.expire key ttl s in (failing (lit "redis expire error") failure, s')

  -- the reply of the script: whether the request is allowed, what remains, and the seconds to wait;
  -- the length of a reply that is too short is left out of its error
  unfoldable pub window_reply : List ℕ → Result (Bool × (ℕ × ℕ))
  window_reply (allowed ∷ remaining ∷ retry_after ∷ rest) =
      ok (allowed == 1, (remaining, retry_after))
  window_reply res = err (plain (lit "redis sliding window: unexpected result length"))

  unfoldable pub sliding_window_allow : Str → ℕ → ℕ → ℕ → State → Result (Bool × (ℕ × ℕ)) × State
  unfolding window_reply
  sliding_window_allow key max_reqs window now s =
      let (reply, s') = R.run_script key now window max_reqs s in
      elim reply [
        | err e ↦ (err (wrapped (lit "redis sliding window error") e), s')
        | ok res ↦ (window_reply res, s')
      ]

  -- DeleteByPrefix with the fuel; when it runs out the call has not returned, which is no success
  unfoldable pub delete_by_prefix : ℕ → Str → State → Option GoError × State
  unfolding sweep
  delete_by_prefix fuel prefix s = elim (sweep fuel 0 prefix s) [
    | none ↦ (some (plain (lit "not returned")), s)
    | some reply ↦ reply
  ]
