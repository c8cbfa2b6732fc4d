-- ===== src/Casbin/Cache/View.antt =====
-- What a caller sees of the decision cache: the decision that is held for a key, and how each
-- operation changes it.
use goscratch.Base.{
  nat_eq, str_eq_instance, ℕ, ◌≡◌, ◌≢◌, ◌⊎◌, refl, Bool, false, ◌&&◌, ◌||◌, Option, none, some, [],
  ◌∷◌, arith, leb, if◌then◌else◌, Str, str_eq, str_eq_iff, length, last?, Option-cases, inl, inr,
  Bool-cases, has_prefix,
}
use goscratch.Base.Dict
use goscratch.Base.Dict.{Dict, get-remove, get-put}
use goscratch.Casbin.Cache.{
  Cache, Entry, get_key, evict_lru, push_front, make_room, put_key, drop_if_prefix, drop_prefix,
  move_to_front, set_value,
}
use goscratch.Casbin.Cache.Order.{value_at, get-move_to_front, value_at-set_value}
use goscratch.Casbin.Cache.Sync.{IsSynced, IsValid, evicted_in_items, get-cons}
use goscratch.Casbin.Cache.Valid.{make_room-IsSynced, absent-make_room, drop-IsValid}

value_of : Option ℕ → Dict ℕ Entry → Option Bool
value_of none order = none
value_of (some i) order = value_at i order

-- the decision held for a key
unfoldable pub decision : Str → Cache → Option Bool
unfolding value_of
decision k c = value_of (Dict.get k c.items) c.order

-- A hit returns the decision that is held, and promoting the element changes no decision.
pub get_key-decision :
    (k j : Str) (c : Cache)
    → ((get_key k c).0 ≡ decision k c) × (decision j (get_key k c).1 ≡ decision j c)
unfolding get_key decision
get_key-decision k j c = elim (Option-cases (Dict.get k c.items)) [
  | inl absent ↦ ground arith
  | inr (i, found) ↦ elim (Option-cases (Dict.get j c.items)) [
    | inl absent ↦ ground arith
    | inr (i', found') ↦ ground (arith, get-move_to_front i' i c.order)
  ]
]

-- the list and the map lose one element
pub drop-decision :
    (c : Cache) (i : ℕ) (k j : Str)
    → IsSynced c
    → Dict.get k c.items ≡ some i
    → decision j (record c { order = Dict.remove i c.order; items = Dict.remove k c.items })
      ≡ (if str_eq k j then none else decision j c)
unfolding decision
drop-decision c i k j h found = elim (Option-cases (Dict.get j c.items)) [
  | inl absent ↦ ground (arith, get-remove k j c.items, str_eq_iff k j)
  | inr (i', found') ↦ ground (
    arith,
    get-remove k j c.items,
    str_eq_iff k j,
    get-remove i i' c.order,
    h.synced j i',
    h.synced k i,
  )
]

-- Eviction loses the decision of the key at the back of the list, and no other.
pub evict_lru-decision :
    (c : Cache) (i : ℕ) (e : Entry) (j : Str)
    → IsSynced c
    → last? c.order ≡ some (i, e)
    → decision j (evict_lru c) ≡ (if str_eq e.key j then none else decision j c)
unfolding evict_lru
evict_lru-decision c i e j h back =
    rw (back, evict_lru) (drop-decision c i e.key j h (evicted_in_items c i e h back).1)

push_front-decision :
    (k j : Str) (v : Bool) (c : Cache)
    → IsSynced c
    → Dict.get k c.items ≡ none
    → decision j (push_front k v c) ≡ (if str_eq k j then some v else decision j c)
unfolding decision push_front
push_front-decision k j v c h absent = elim (Option-cases (Dict.get j c.items)) [
  | inl absent' ↦ ground (
    arith,
    get-put k j c.next c.items,
    str_eq_iff k j,
    get-cons c.next c.next (record { key = k; value = v }) c.order,
  )
  | inr (i', found') ↦ ground (
    arith,
    get-put k j c.next c.items,
    str_eq_iff k j,
    h.synced j i',
    h.fresh i' j,
    get-cons c.next c.next (record { key = k; value = v }) c.order,
    get-cons i' c.next (record { key = k; value = v }) c.order,
  )
]

update-decision :
    (k j : Str) (i : ℕ) (v : Bool) (c : Cache)
    → IsSynced c
    → Dict.get k c.items ≡ some i
    → decision j (record c { order = move_to_front i (set_value i v c.order) })
      ≡ (if str_eq k j then some v else decision j c)
unfolding decision
update-decision k j i v c h found = elim (Option-cases (Dict.get j c.items)) [
  | inl absent ↦ ground (arith, str_eq_iff k j)
  | inr (i', found') ↦ ground (
    arith,
    str_eq_iff k j,
    h.synced j i',
    h.synced k i',
    h.synced k i,
    get-move_to_front i' i (set_value i v c.order),
    value_at-set_value i' i v c.order j,
  )
]

-- making room loses decisions and invents none
pub make_room-decision :
    (c : Cache) (j : Str)
    → IsSynced c
    → (decision j (make_room c) ≡ decision j c) ⊎ (decision j (make_room c) ≡ none)
unfolding make_room
make_room-decision c j h = elim (Bool-cases (leb c.max_size (length c.order))) [
  | inr room ↦ inl (ground arith)
  | inl full ↦ elim (Option-cases (last? c.order)) [
    | inl empty ↦ inl (unfold evict_lru in ground arith)
    | inr ((i, e), back) ↦ ground (arith, evict_lru-decision c i e j h back)
  ]
]

-- After put: the key's own decision is the one put; any other one is as before, or has been
-- evicted.
pub put_key-decision :
    (k j : Str) (v : Bool) (c : Cache)
    → IsSynced c
    → (decision k (put_key k v c) ≡ some v)
      × ((w : Bool) → k ≢ j → decision j (put_key k v c) ≡ some w → decision j c ≡ some w)
unfolding put_key
put_key-decision k j v c h = elim (Option-cases (Dict.get k c.items)) [
  | inl absent ↦
      let room = make_room-IsSynced c h in
      let absent' = absent-make_room c k absent in
      (
        rw (absent, put_key)
            (ground (arith, push_front-decision k k v (make_room c) room absent', str_eq_iff k k)),
        λ w ne p. ground (
          arith,
          push_front-decision k j v (make_room c) room absent',
          str_eq_iff k j,
          make_room-decision c j h,
        ),
      )
  | inr (i, found) ↦ (
    rw (found, put_key) (ground (arith, update-decision k k i v c h found, str_eq_iff k k)),
    λ w ne p. ground (arith, update-decision k j i v c h found, str_eq_iff k j),
  )
]

-- The loop of invalidateSub: the keys with the prefix that the map holds lose their decisions,
-- and no other decision changes.
drop_if_prefix-decision :
    (prefix k j : Str) (i : ℕ) (c : Cache)
    → IsSynced c
    → Dict.get k c.items ≡ some i
    → decision j (drop_if_prefix prefix k i c)
      ≡ (if has_prefix k prefix then (if str_eq k j then none else decision j c) else decision j c)
unfolding drop_if_prefix
drop_if_prefix-decision prefix k j i c h found = elim (Bool-cases (has_prefix k prefix)) [
  | inl e ↦ rw (e, drop_if_prefix) (drop-decision c i k j h found)
  | inr e ↦ rw (e, drop_if_prefix) refl
]

-- some entry of the snapshot has the key
abbrev listed : Str → Dict Str ℕ → Bool
listed k [] = false
listed k ((j, _) ∷ rest) = str_eq j k || listed k rest

absent-decision : (k : Str) (c : Cache) → Dict.get k c.items ≡ none → decision k c ≡ none
unfolding decision
absent-decision k c h = ground arith

drop_prefix-decision :
    (prefix j : Str) (entries : Dict Str ℕ) (c : Cache)
    → IsValid c
    → decision j (drop_prefix prefix entries c)
      ≡ (if has_prefix j prefix && listed j entries then none else decision j c)
unfolding drop_prefix
drop_prefix-decision prefix j [] c h = ground arith
drop_prefix-decision prefix j ((k, x) ∷ rest) c h = elim (Option-cases (Dict.get k c.items)) [
  | inl absent ↦
      rw (absent, drop_prefix)
        (ground (
          arith,
          drop_prefix-decision prefix j rest c h,
          absent-decision k c absent,
          str_eq_iff k j,
        ))
  | inr (i, found) ↦
      rw (found, drop_prefix)
        (ground (
          arith,
          drop_prefix-decision prefix j rest (drop_if_prefix prefix k i c)
              (drop-IsValid prefix k i c h found),
          drop_if_prefix-decision prefix k j i c h.in_sync found,
          str_eq_iff k j,
        ))
]

unlisted : (j : Str) (m : Dict Str ℕ) → listed j m ≡ false → Dict.get j m ≡ none
unfolding Dict.get
unlisted j [] h = refl
unlisted j ((k, i) ∷ m) h = ground (arith, unlisted j m)

pub drop_all-decision :
    (prefix j : Str) (c : Cache)
    → IsValid c
    → decision j (drop_prefix prefix c.items c)
      ≡ (if has_prefix j prefix then none else decision j c)
drop_all-decision prefix j c h =
    ground
      (arith, drop_prefix-decision prefix j c.items c h, unlisted j c.items, absent-decision j c)
