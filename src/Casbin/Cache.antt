-- ===== src/Casbin/Cache.antt =====
-- internal/adapter/casbin/cache.go: the LRU decision cache. The pointers *list.Element are handles
-- (numbers): `items` maps a key to a handle, and `order` is the linked list, front first, each
-- element with its handle and its cacheEntry. A new element takes the handle `next`. The mutex
-- makes every method atomic, so a method is a function on the state. A nil receiver does what a
-- cache of size 0 does and is not modelled apart from that.
pub mod Order
pub mod Keys
pub mod Sync
pub mod Valid
pub mod View
pub mod Triples
mod Tests
use goscratch.Base.{
  nat_eq, str_eq_instance, ℕ, ◌+◌, Bool, ◌||◌, Option, none, some, List, [], ◌∷◌, ◌++◌, ◌==◌, leb,
  if◌then◌else◌, Str, has_byte, has_prefix, length, last?,
}
use goscratch.Base.Dict
use goscratch.Base.Dict.{Dict}

pub record Entry : Type 0 where
  pub key : Str
  pub value : Bool

pub record Cache : Type 0 where
  pub max_size : ℕ
  pub items : Dict Str ℕ
  pub order : Dict ℕ Entry
  pub next : ℕ

unfoldable pub new_cache : ℕ → Cache
new_cache max_size = record { max_size = max_size; items = []; order = []; next = 0 }

unfoldable pub cache_key : Str → Str → Str → Str
cache_key sub obj act = sub ++ (0 ∷ (obj ++ (0 ∷ act)))

-- the guard of get and put: one of the arguments holds the separator
unfoldable pub has_separator : Str → Str → Str → Bool
has_separator sub obj act = has_byte 0 sub || has_byte 0 obj || has_byte 0 act

-- el.Value.(*cacheEntry).value and .key of the element with a handle
abbrev pub entry_value : Option Entry → Option Bool
entry_value none = none
entry_value (some e) = some e.value

abbrev pub entry_key : Option Entry → Option Str
entry_key none = none
entry_key (some e) = some e.key

-- c.order.MoveToFront(el)
unfoldable pub move_to_front : ℕ → Dict ℕ Entry → Dict ℕ Entry
move_to_front el order = elim (Dict.get el order) [ none ↦ order | some e ↦ Dict.put el e order ]

-- el.Value.(*cacheEntry).value = v
unfoldable pub set_value : ℕ → Bool → Dict ℕ Entry → Dict ℕ Entry
set_value el v [] = []
set_value el v ((i, e) ∷ order) =
    (i, if i == el then record e { value = v } else e) ∷ set_value el v order

-- the part of get under the lock
unfoldable pub get_key : Str → Cache → Option Bool × Cache
get_key key c = elim (Dict.get key c.items) [
  | none ↦ (none, c)
  | some el ↦ (entry_value (Dict.get el c.order), record c { order = move_to_front el c.order })
]

-- `none` is the miss (false, false), `some v` the hit (v, true).
unfoldable pub get : Str → Str → Str → Cache → Option Bool × Cache
get sub obj act c =
    if c.max_size == 0
    then (none, c)
    else if has_separator sub obj act
    then (none, c)
    else get_key (cache_key sub obj act) c

unfoldable pub evict_lru : Cache → Cache
evict_lru c = elim (last? c.order) [
  | none ↦ c
  | some (i, e) ↦ record c { order = Dict.remove i c.order; items = Dict.remove e.key c.items }
]

-- c.order.PushFront and the write to the map
unfoldable pub push_front : Str → Bool → Cache → Cache
push_front key v c = record c {
  order = (c.next, record { key = key; value = v }) ∷ c.order;
  items = Dict.put key c.next c.items;
  next = c.next + 1;
}

unfoldable pub make_room : Cache → Cache
make_room c = if leb c.max_size (length c.order) then evict_lru c else c

-- the part of put under the lock
unfoldable pub put_key : Str → Bool → Cache → Cache
put_key key v c = elim (Dict.get key c.items) [
  | none ↦ push_front key v (make_room c)
  | some el ↦ record c { order = move_to_front el (set_value el v c.order) }
]

unfoldable pub put : Str → Str → Str → Bool → Cache → Cache
put sub obj act v c =
    if c.max_size == 0
    then c
    else if has_separator sub obj act
    then c
    else put_key (cache_key sub obj act) v c

-- one round of the loop of invalidateSub
unfoldable pub drop_if_prefix : Str → Str → ℕ → Cache → Cache
drop_if_prefix prefix key el c =
    if has_prefix key prefix
    then record c { order = Dict.remove el c.order; items = Dict.remove key c.items }
    else c

-- The loop over the map: a key that an earlier round has deleted is not visited.
unfoldable pub drop_prefix : Str → Dict Str ℕ → Cache → Cache
drop_prefix prefix [] c = c
drop_prefix prefix ((key, _) ∷ rest) c =
    drop_prefix prefix rest
      (elim (Dict.get key c.items) [ none ↦ c | some el ↦ drop_if_prefix prefix key el c ])

unfoldable pub invalidate_sub : Str → Cache → Cache
invalidate_sub sub c = if c.max_size == 0 then c else drop_prefix (sub ++ (0 ∷ [])) c.items c

unfoldable pub flush : Cache → Cache
flush c = if c.max_size == 0 then c else record c { items = []; order = [] }

unfoldable pub len : Cache → ℕ
len c = length c.order
