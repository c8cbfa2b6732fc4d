-- ===== src/Casbin/Cache/Keys.antt =====
-- The cache key encodes the triple without collisions, as long as no part holds the separator.
use goscratch.Base.{
  ◌≡◌, false, arith, ◌++◌, ◌∷◌, [], Str, str_eq, has_byte, has_prefix, append_sep_injective,
  has_prefix-sep,
}
use goscratch.Casbin.Cache.{cache_key, has_separator}

-- Two triples, no part of which (subject, object or action) holds a zero byte, have the same key
-- only if they are equal.
pub cache_key-injective :
    (sub obj act sub' obj' act' : Str)
    → has_separator sub obj act ≡ false
    → has_separator sub' obj' act' ≡ false
    → cache_key sub obj act ≡ cache_key sub' obj' act'
    → (sub ≡ sub') × (obj ≡ obj') × (act ≡ act')
unfolding cache_key has_separator
cache_key-injective sub obj act sub' obj' act' h h' e = ground (
  arith,
  append_sep_injective 0 sub sub' (obj ++ (0 ∷ act)) (obj' ++ (0 ∷ act')),
  append_sep_injective 0 obj obj' act act',
)

pub has_prefix-cache_key :
    (sub obj act other : Str)
    → has_separator sub obj act ≡ false
    → has_byte 0 other ≡ false
    → has_prefix (cache_key sub obj act) (other ++ (0 ∷ [])) ≡ str_eq sub other
unfolding cache_key has_separator
has_prefix-cache_key sub obj act other h h' =
    has_prefix-sep 0 sub other (obj ++ (0 ∷ act)) (ground arith) h'
