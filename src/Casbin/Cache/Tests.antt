-- ===== src/Casbin/Cache/Tests.antt =====
-- The decision cache on concrete decisions.
use goscratch.Base.{
  ◌≡◌, refl, Bool, true, false, some, none, ◌<◌, arith, Str, lit, str_eq, has_byte, if◌then◌else◌,
}
use goscratch.Casbin.Cache.{
  Cache, new_cache, get, put, invalidate_sub, flush, has_separator, cache_key, get_key, put_key,
  push_front, make_room, evict_lru, move_to_front,
}
use goscratch.Casbin.Cache.Sync.{IsValid, new_cache-IsValid}
use goscratch.Casbin.Cache.Valid.{put-IsValid}
use goscratch.Casbin.Cache.Keys.{cache_key-injective}
use goscratch.Casbin.Cache.Triples.{cache-IsValid, get-put, get-invalidate_sub}
use goscratch.Base.Dict

abbrev alice : Str
alice = lit "alice"

abbrev bob : Str
bob = lit "bob"

abbrev users : Str
users = lit "users"

abbrev read : Str
read = lit "read"

-- two entries, the older one alice's
abbrev two_entries : Cache
two_entries = put bob users read false (put alice users read true (new_cache 2))

two_entries-IsValid : IsValid two_entries
two_entries-IsValid =
    put-IsValid bob users read false (put alice users read true (new_cache 2))
      (put-IsValid alice users read true (new_cache 2) (new_cache-IsValid 2))

two_entries_size : 0 < two_entries.max_size
unfolding put new_cache put_key has_separator has_byte lit push_front make_room cache_key Dict.get
    Dict.put str_eq
two_entries_size = omega arith

-- a third decision evicts alice's, the least recently used
evicts_oldest : (get alice users read (put alice users (lit "write") true two_entries)).0 ≡ none
unfolding get put new_cache put_key has_separator has_byte lit push_front make_room evict_lru
    get_key cache_key Dict.get Dict.put str_eq
evicts_oldest = refl

-- unless it has been read since
promoted_survives :
    (get alice users read
      (put alice users (lit "write") true (get alice users read two_entries).1)).0
    ≡ some true
unfolding get put new_cache put_key has_separator has_byte lit push_front make_room evict_lru
    get_key cache_key move_to_front Dict.get Dict.put str_eq
promoted_survives = refl

clean : has_separator alice users read ≡ false
unfolding has_separator has_byte lit
clean = refl

clean_alice : has_byte 0 alice ≡ false
unfolding has_byte lit
clean_alice = refl

cache_key-injective_example : (alice ≡ alice) × (users ≡ users) × (read ≡ read)
cache_key-injective_example = cache_key-injective alice users read alice users read clean clean refl

cache-IsValid_example :
    ((n : _) → IsValid (new_cache n))
    × ((sub obj act : Str) → IsValid (get sub obj act two_entries).1)
    × ((sub obj act : Str) (v : Bool) → IsValid (put sub obj act v two_entries))
    × ((sub : Str) → IsValid (invalidate_sub sub two_entries))
    × IsValid (flush two_entries)
cache-IsValid_example = cache-IsValid two_entries two_entries-IsValid

get-put_example :
    ((get alice users read (put alice users read false two_entries)).0 ≡ some false)
    × ((sub' obj' act' : Str) (w : Bool)
        → ((alice ≡ sub') × (users ≡ obj') × (read ≡ act') → ⊥)
        → (get sub' obj' act' (put alice users read false two_entries)).0 ≡ some w
        → (get sub' obj' act' two_entries).0 ≡ some w)
get-put_example =
    get-put alice users read false two_entries two_entries-IsValid two_entries_size clean

get-invalidate_sub_example :
    (get alice users read (invalidate_sub alice two_entries)).0
    ≡ (if str_eq alice alice then none else (get alice users read two_entries).0)
get-invalidate_sub_example =
    get-invalidate_sub alice alice users read two_entries two_entries-IsValid clean_alice
