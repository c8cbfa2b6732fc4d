-- ===== src/Casbin/Cache/Valid.antt =====
-- Every operation of the decision cache keeps its invariant, the bound on its size included.
use goscratch.Base.{
  nat_eq, str_eq_instance, ℕ, ◌<◌, ◌≡◌, refl, Bool, Option, none, some, [], ◌∷◌, arith, ◌==◌, ◌++◌,
  ◌∙◌, leb, Str, length, last?, Option-cases, inl, inr, Bool-cases, if_ind, has_prefix,
}
use goscratch.Base.Dict
use goscratch.Base.Dict.{Dict, get-remove, get-put}
use goscratch.Casbin.Cache.{
  Cache, evict_lru, push_front, make_room, put_key, drop_if_prefix, drop_prefix, invalidate_sub,
  flush, get, put, cache_key, has_separator, set_value,
}
use goscratch.Casbin.Cache.Order.{length-remove, length-move_to_front, length-set_value}
use goscratch.Casbin.Cache.Sync.{
  IsSynced, IsValid, drop-IsSynced, push_front-IsSynced, update-IsSynced, get_key-IsValid,
  evict_lru-IsSynced, make_room-bounded,
}

pub make_room-IsSynced : (c : Cache) → IsSynced c → IsSynced (make_room c)
unfolding make_room
make_room-IsSynced c h = elim (Bool-cases (leb c.max_size (length c.order))) [
  | inl full ↦ rw (full, make_room) (evict_lru-IsSynced c h)
  | inr room ↦ rw (room, make_room) h
]

pub max_size-make_room : (c : Cache) → (make_room c).max_size ≡ c.max_size
unfolding make_room evict_lru
max_size-make_room c = ground arith

-- Eviction adds no key.
pub absent-make_room :
    (c : Cache) (k : Str) → Dict.get k c.items ≡ none → Dict.get k (make_room c).items ≡ none
unfolding make_room evict_lru
absent-make_room c k absent = elim (Option-cases (last? c.order)) [
  | inl empty ↦ ground arith
  | inr ((i, e), back) ↦ ground (arith, get-remove e.key k c.items)
]

pub put_key-IsValid :
    (k : Str) (v : Bool) (c : Cache) → 0 < c.max_size → IsValid c → IsValid (put_key k v c)
unfolding put_key
put_key-IsValid k v c pos h = elim (Option-cases (Dict.get k c.items)) [
  | inl absent ↦
      rw (absent, put_key)
        (record {
          in_sync =
              push_front-IsSynced k v (make_room c) (make_room-IsSynced c h.in_sync)
                (absent-make_room c k absent);
          bounded =
              unfold push_front in omega (arith, make_room-bounded c h pos, max_size-make_room c);
        })
  | inr (i, found) ↦
      rw (found, put_key)
        (record {
          in_sync = update-IsSynced i v c h.in_sync;
          bounded = omega (
            arith,
            h.bounded,
            length-move_to_front i (set_value i v c.order),
            length-set_value i v c.order,
          );
        })
]

pub drop-IsValid :
    (prefix k : Str) (i : ℕ) (c : Cache)
    → IsValid c
    → Dict.get k c.items ≡ some i
    → IsValid (drop_if_prefix prefix k i c)
unfolding drop_if_prefix
drop-IsValid prefix k i c h found = elim (Bool-cases (has_prefix k prefix)) [
  | inl yes_prefix ↦
      rw (yes_prefix, drop_if_prefix)
        (record {
          in_sync = drop-IsSynced c i k h.in_sync found;
          bounded = omega (arith, h.bounded, length-remove i c.order);
        })
  | inr no_prefix ↦ rw (no_prefix, drop_if_prefix) h
]

drop_prefix-IsValid :
    (prefix : Str) (entries : Dict Str ℕ) (c : Cache)
    → IsValid c
    → IsValid (drop_prefix prefix entries c)
unfolding drop_prefix
drop_prefix-IsValid prefix [] c h = h
drop_prefix-IsValid prefix ((k, x) ∷ rest) c h = elim (Option-cases (Dict.get k c.items)) [
  | inl absent ↦ rw (absent, drop_prefix) (drop_prefix-IsValid prefix rest c h)
  | inr (i, found) ↦
      rw (found, drop_prefix)
        (drop_prefix-IsValid prefix rest (drop_if_prefix prefix k i c)
          (drop-IsValid prefix k i c h found))
]

pub max_size-drop_prefix :
    (prefix : Str) (entries : Dict Str ℕ) (c : Cache)
    → (drop_prefix prefix entries c).max_size ≡ c.max_size
unfolding drop_prefix drop_if_prefix
max_size-drop_prefix prefix [] c = refl
max_size-drop_prefix prefix ((k, x) ∷ rest) c = elim (Option-cases (Dict.get k c.items)) [
  | inl absent ↦ rw (absent, drop_prefix) (max_size-drop_prefix prefix rest c)
  | inr (i, found) ↦
      rw (found, drop_prefix)
        (max_size-drop_prefix prefix rest (drop_if_prefix prefix k i c) ∙ ground arith)
]

-- The four operations that a caller has, from any valid cache.
pub get-IsValid : (sub obj act : Str) (c : Cache) → IsValid c → IsValid (get sub obj act c).1
unfolding get
get-IsValid sub obj act c h =
    if_ind (λ (r : Option Bool × Cache). IsValid r.1) (c.max_size == 0) (λ _. h)
      λ _.
        if_ind (λ (r : Option Bool × Cache). IsValid r.1) (has_separator sub obj act) (λ _. h)
          λ _. get_key-IsValid (cache_key sub obj act) c h

pub put-IsValid :
    (sub obj act : Str) (v : Bool) (c : Cache) → IsValid c → IsValid (put sub obj act v c)
unfolding put
put-IsValid sub obj act v c h =
    if_ind IsValid (c.max_size == 0) (λ _. h)
      λ enabled.
        if_ind IsValid (has_separator sub obj act) (λ _. h)
          λ _. put_key-IsValid (cache_key sub obj act) v c (ground arith) h

pub invalidate_sub-IsValid : (sub : Str) (c : Cache) → IsValid c → IsValid (invalidate_sub sub c)
unfolding invalidate_sub
invalidate_sub-IsValid sub c h = elim (Bool-cases (c.max_size == 0)) [
  | inl disabled ↦ rw (disabled, invalidate_sub) h
  | inr enabled ↦ rw (enabled, invalidate_sub) (drop_prefix-IsValid (sub ++ (0 ∷ [])) c.items c h)
]

pub flush-IsValid : (c : Cache) → IsValid c → IsValid (flush c)
unfolding flush Dict.get
flush-IsValid c h =
    if_ind IsValid (c.max_size == 0) (λ _. h)
      λ _. record {
        in_sync = record {
          synced = λ k i. (λ p. ground arith, λ p. ground arith);
          fresh = λ i k p. ground arith;
          distinct = tt;
        };
        bounded = omega arith;
      }
