-- ===== src/Casbin/Cache/Triples.antt =====
-- The decision cache as the adapter uses it: decisions of (subject, object, action).
use goscratch.Base.{
  ℕ, ◌≤◌, ◌<◌, ◌≡◌, ◌≢◌, ◌⊎◌, refl, Bool, false, none, some, arith, ◌++◌, ◌∷◌, [], if◌then◌else◌,
  Str, str_eq, str_eq_iff, has_byte, has_prefix, Option-cases, inl, inr, nat_eq, str_eq_instance,
  length,
}
use goscratch.Base.Dict
use goscratch.Base.Dict.{Dict}
use goscratch.Casbin.Cache.Order.{key_at}
use goscratch.Casbin.Cache.{
  Cache, Entry, new_cache, cache_key, has_separator, get, put, invalidate_sub, flush,
}
use goscratch.Casbin.Cache.Keys.{cache_key-injective, has_prefix-cache_key}
use goscratch.Casbin.Cache.Sync.{IsValid, new_cache-IsValid}
use goscratch.Casbin.Cache.Valid.{get-IsValid, put-IsValid, invalidate_sub-IsValid, flush-IsValid}
use goscratch.Casbin.Cache.View.{decision, get_key-decision, put_key-decision, drop_all-decision}

no_element : (i : ℕ) (k : Str) (order : Dict ℕ Entry) → length order ≤ 0 → key_at i order ≢ some k
unfolding Dict.get
no_element i k [] h p = ground arith
no_element i k (x ∷ order) h p = absurd (omega arith)

-- a disabled cache holds nothing
disabled-decision : (k : Str) (c : Cache) → IsValid c → c.max_size ≡ 0 → decision k c ≡ none
unfolding decision
disabled-decision k c h z = elim (Option-cases (Dict.get k c.items)) [
  | inl absent ↦ ground arith
  | inr (i, found) ↦
      absurd (no_element i k c.order (omega (arith, h.bounded)) ((h.in_sync.synced k i).0 found))
]

module _ (sub obj act : Str) (c : Cache) where
  pub get-decision :
      IsValid c
      → (get sub obj act c).0
        ≡ (if has_separator sub obj act then none else decision (cache_key sub obj act) c)
  unfolding get
  get-decision h = ground (
    arith,
    disabled-decision (cache_key sub obj act) c h,
    get_key-decision (cache_key sub obj act) (cache_key sub obj act) c,
  )

  pub decision-get : (j : Str) → decision j (get sub obj act c).1 ≡ decision j c
  unfolding get
  decision-get j = ground (arith, get_key-decision (cache_key sub obj act) j c)

  -- a decision that is held after put is the one put, or was held before
  pub decision-put :
      (v : Bool) (j : Str) (w : Bool)
      → IsValid c
      → decision j (put sub obj act v c) ≡ some w
      → ((has_separator sub obj act ≡ false) × (j ≡ cache_key sub obj act) × (w ≡ v))
        ⊎ (decision j c ≡ some w)
  unfolding put
  decision-put v j w h p = ground (
    arith,
    put_key-decision (cache_key sub obj act) j v c h.in_sync,
    (put_key-decision (cache_key sub obj act) j v c h.in_sync).1 w,
    str_eq_iff (cache_key sub obj act) j,
  )

  pub decision-put_self :
      (v : Bool)
      → IsValid c
      → 0 < c.max_size
      → has_separator sub obj act ≡ false
      → decision (cache_key sub obj act) (put sub obj act v c) ≡ some v
  unfolding put
  decision-put_self v h pos clean =
      ground (arith, put_key-decision (cache_key sub obj act) (cache_key sub obj act) v c h.in_sync)

pub decision-invalidate_sub :
    (sub j : Str) (c : Cache)
    → IsValid c
    → decision j (invalidate_sub sub c)
      ≡ (if has_prefix j (sub ++ (0 ∷ [])) then none else decision j c)
unfolding invalidate_sub
decision-invalidate_sub sub j c h =
    ground (arith, disabled-decision j c h, drop_all-decision (sub ++ (0 ∷ [])) j c h)

unheld : (j : Str) (c : Cache) → decision j (record c { items = []; order = [] }) ≡ none
unfolding decision Dict.get
unheld j c = refl

pub decision-new_cache : (j : Str) (n : ℕ) → decision j (new_cache n) ≡ none
unfolding decision Dict.get new_cache
decision-new_cache j n = refl

pub decision-flush : (j : Str) (c : Cache) → IsValid c → decision j (flush c) ≡ none
unfolding flush
decision-flush j c h = ground (arith, disabled-decision j c h, unheld j c)

put-get_self :
    (sub obj act : Str) (v : Bool) (c : Cache)
    → IsValid c
    → 0 < c.max_size
    → has_separator sub obj act ≡ false
    → (get sub obj act (put sub obj act v c)).0 ≡ some v
put-get_self sub obj act v c h pos clean = ground (
  arith,
  get-decision sub obj act (put sub obj act v c) (put-IsValid sub obj act v c h),
  decision-put_self sub obj act c v h pos clean,
)

-- In a valid cache that is not disabled, for a triple without a zero byte, get after put hits with
-- the value put; and any other triple that hits after the put hit with the same value before it.
pub get-put :
    (sub obj act : Str) (v : Bool) (c : Cache)
    → IsValid c
    → 0 < c.max_size
    → has_separator sub obj act ≡ false
    → ((get sub obj act (put sub obj act v c)).0 ≡ some v)
      × ((sub' obj' act' : Str) (w : Bool)
          → ((sub ≡ sub') × (obj ≡ obj') × (act ≡ act') → ⊥)
          → (get sub' obj' act' (put sub obj act v c)).0 ≡ some w
          → (get sub' obj' act' c).0 ≡ some w)
get-put sub obj act v c h pos clean = (
  put-get_self sub obj act v c h pos clean,
  λ sub' obj' act' w ne p. ground (
    arith,
    get-decision sub' obj' act' c h,
    get-decision sub' obj' act' (put sub obj act v c) (put-IsValid sub obj act v c h),
    decision-put sub obj act c v (cache_key sub' obj' act') w h,
    λ (e : cache_key sub obj act ≡ cache_key sub' obj' act')
          (d : has_separator sub' obj' act' ≡ false).
        ne (cache_key-injective sub obj act sub' obj' act' clean d e),
  ),
)

-- In a valid cache, after invalidate_sub of a subject without a zero byte, every triple of that
-- subject misses, and every triple of another subject hits or misses as before.
pub get-invalidate_sub :
    (user sub obj act : Str) (c : Cache)
    → IsValid c
    → has_byte 0 user ≡ false
    → (get sub obj act (invalidate_sub user c)).0
      ≡ (if str_eq sub user then none else (get sub obj act c).0)
get-invalidate_sub user sub obj act c h clean = ground (
  arith,
  get-decision sub obj act c h,
  get-decision sub obj act (invalidate_sub user c) (invalidate_sub-IsValid user c h),
  decision-invalidate_sub user (cache_key sub obj act) c h,
  has_prefix-cache_key sub obj act user,
)

-- From a valid cache every operation leaves a valid one: the map and the list hold the same
-- elements, no handle stands twice, and there are at most max_size of them. The empty cache of
-- any size is valid.
pub cache-IsValid :
    (c : Cache)
    → IsValid c
    → ((n : ℕ) → IsValid (new_cache n))
      × ((sub obj act : Str) → IsValid (get sub obj act c).1)
      × ((sub obj act : Str) (v : Bool) → IsValid (put sub obj act v c))
      × ((sub : Str) → IsValid (invalidate_sub sub c))
      × IsValid (flush c)
cache-IsValid c h = (
  new_cache-IsValid,
  λ sub obj act. get-IsValid sub obj act c h,
  λ sub obj act v. put-IsValid sub obj act v c h,
  λ sub. invalidate_sub-IsValid sub c h,
  flush-IsValid c h,
)
