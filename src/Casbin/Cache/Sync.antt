-- ===== src/Casbin/Cache/Sync.antt =====
-- The invariant of the decision cache: the map and the list hold the same elements, and the list
-- is no longer than the size.
use goscratch.Base.{
  nat_eq, str_eq_instance, ℕ, ◌≤◌, ◌<◌, ◌≡◌, refl, ◌↔◌, Bool, none, some, [], ◌∷◌, arith, ◌==◌,
  if◌then◌else◌, Str, str_eq_iff, length, last?, Option-cases, inl, inr,
}
use goscratch.Base.Dict
use goscratch.Base.Dict.{Dict, get-remove, get-put}
use goscratch.Casbin.Cache.{
  Cache, Entry, get_key, evict_lru, push_front, make_room, new_cache, move_to_front, set_value,
}
use goscratch.Casbin.Cache.Order.{
  key_at, Distinct, get-move_to_front, key_at-set_value, set_value-Distinct, remove-Distinct,
  move_to_front-Distinct, length-remove_found, length-move_to_front, get-last,
}

-- but for the bound, which put breaks for a moment
pub record IsSynced (c : Cache) : Type 0 where
  pub synced : (k : Str) (i : ℕ) → (Dict.get k c.items ≡ some i) ↔ (key_at i c.order ≡ some k)
  pub fresh : (i : ℕ) (k : Str) → key_at i c.order ≡ some k → i < c.next
  pub distinct : Distinct c.order

pub record IsValid (c : Cache) : Type 0 where
  pub in_sync : IsSynced c
  pub bounded : length c.order ≤ c.max_size

pub new_cache-IsValid : (n : ℕ) → IsValid (new_cache n)
unfolding new_cache Dict.get
new_cache-IsValid n = record {
  in_sync = record {
    synced = λ k i. (λ h. ground arith, λ h. ground arith);
    fresh = λ i k h. ground arith;
    distinct = tt;
  };
  bounded = omega arith;
}

-- a change of the list that keeps every element's key and adds none
module _ (c : Cache) (order : Dict ℕ Entry) where
  pub reorder-IsSynced :
      IsSynced c
      → ((i : ℕ) → key_at i order ≡ key_at i c.order)
      → Distinct order
      → IsSynced (record c { order = order })
  reorder-IsSynced h same d = record {
    synced = λ k i. (
      λ p. ground (arith, same i, (h.synced k i).0 p),
      λ p. (h.synced k i).1 (ground (arith, same i)),
    );
    fresh = λ i k p. h.fresh i k (ground (arith, same i));
    distinct = d;
  }

-- the list and the map lose one element
pub drop-IsSynced :
    (c : Cache) (i : ℕ) (k : Str)
    → IsSynced c
    → Dict.get k c.items ≡ some i
    → IsSynced (record c { order = Dict.remove i c.order; items = Dict.remove k c.items })
drop-IsSynced c i k h found = record {
  synced = λ k' i'. (
    λ p. ground (
      arith,
      get-remove i i' c.order,
      get-remove k k' c.items,
      str_eq_iff k k',
      h.synced k' i',
      h.synced k i,
      h.synced k' i,
    ),
    λ p. ground (
      arith,
      get-remove i i' c.order,
      get-remove k k' c.items,
      str_eq_iff k k',
      h.synced k' i',
      h.synced k i,
    ),
  );
  fresh = λ i' k' p. ground (arith, get-remove i i' c.order, h.fresh i' k');
  distinct = remove-Distinct i c.order h.distinct;
}

pub get-cons :
    (i j : ℕ) (e : Entry) (order : Dict ℕ Entry)
    → Dict.get i ((j, e) ∷ order) ≡ (if j == i then some e else Dict.get i order)
unfolding Dict.get
get-cons i j e order = refl

pub push_front-IsSynced :
    (k : Str) (v : Bool) (c : Cache)
    → IsSynced c
    → Dict.get k c.items ≡ none
    → IsSynced (push_front k v c)
unfolding push_front
push_front-IsSynced k v c h absent = record {
  synced = λ k' i. (
    λ p. ground (
      arith,
      get-put k k' c.next c.items,
      str_eq_iff k k',
      h.synced k' i,
      h.fresh i k',
      get-cons i c.next (record { key = k; value = v }) c.order,
    ),
    λ p. ground (
      arith,
      get-put k k' c.next c.items,
      str_eq_iff k k',
      h.synced k' i,
      h.synced k i,
      h.fresh i k',
      get-cons i c.next (record { key = k; value = v }) c.order,
    ),
  );
  fresh = λ i k' p.
      ground (arith, h.fresh i k', get-cons i c.next (record { key = k; value = v }) c.order);
  distinct = (none_at_next, h.distinct);
}
  where
    none_at_next : Dict.get c.next c.order ≡ none
    none_at_next = elim (Option-cases (Dict.get c.next c.order)) [
      | inl e ↦ e
      | inr (e, found) ↦ absurd (ground (arith, h.fresh c.next e.key))
    ]

-- the two ways of put
pub update-IsSynced :
    (i : ℕ) (v : Bool) (c : Cache)
    → IsSynced c
    → IsSynced (record c { order = move_to_front i (set_value i v c.order) })
update-IsSynced i v c h =
    reorder-IsSynced c (move_to_front i (set_value i v c.order)) h
      (λ j.
        ground
          (arith, get-move_to_front j i (set_value i v c.order), key_at-set_value j i v c.order))
      (move_to_front-Distinct i (set_value i v c.order) (set_value-Distinct i v c.order h.distinct))

pub get_key-IsValid : (k : Str) (c : Cache) → IsValid c → IsValid (get_key k c).1
unfolding get_key
get_key-IsValid k c h = elim (Option-cases (Dict.get k c.items)) [
  | inl absent ↦ rw (absent, get_key) h
  | inr (i, found) ↦
      rw (found, get_key)
        (record {
          in_sync =
              reorder-IsSynced c (move_to_front i c.order) h.in_sync
                (λ j. ground (arith, get-move_to_front j i c.order))
                (move_to_front-Distinct i c.order h.in_sync.distinct);
          bounded = omega (arith, h.bounded, length-move_to_front i c.order);
        })
]

-- The element that is evicted is in the map under its key.
pub evicted_in_items :
    (c : Cache) (i : ℕ) (e : Entry)
    → IsSynced c
    → last? c.order ≡ some (i, e)
    → (Dict.get i c.order ≡ some e) × (Dict.get e.key c.items ≡ some i)
evicted_in_items c i e h back =
    let found = get-last c.order i e h.distinct back in (found, (h.synced e.key i).1 (ground arith))

pub evict_lru-IsSynced : (c : Cache) → IsSynced c → IsSynced (evict_lru c)
unfolding evict_lru
evict_lru-IsSynced c h = elim (Option-cases (last? c.order)) [
  | inl empty ↦ rw (empty, evict_lru) h
  | inr ((i, e), back) ↦
      rw (back, evict_lru) (drop-IsSynced c i e.key h (evicted_in_items c i e h back).1)
]

last?-nonempty : (order : Dict ℕ Entry) → last? order ≡ none → length order ≡ 0
last?-nonempty [] h = refl
last?-nonempty (x ∷ []) h = ground arith
last?-nonempty (x ∷ y ∷ order) h = absurd (ground (arith, last?-nonempty (y ∷ order)))

pub make_room-bounded :
    (c : Cache) → IsValid c → 0 < c.max_size → length (make_room c).order < c.max_size
unfolding make_room evict_lru
make_room-bounded c h pos = elim (Option-cases (last? c.order)) [
  | inl empty ↦ ground (arith, last?-nonempty c.order empty)
  | inr ((i, e), back) ↦
      ground (
        arith,
        h.bounded,
        length-remove_found i c.order e (evicted_in_items c i e h.in_sync back).0,
      )
]
