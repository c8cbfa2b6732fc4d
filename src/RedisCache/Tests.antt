-- ===== src/RedisCache/Tests.antt =====
-- A Redis in memory, whose SCAN gives all keys under a literal prefix on one page.
use goscratch.Base.{
  str_eq_instance, ℕ, ◌≡◌, ◌≢◌, refl, ap, sym, ◌∙◌, arith, true, none, List, [], ◌∷◌, ◌++◌,
  if◌then◌else◌, Str, lit, str_eq, str_eq_iff, has_prefix, Bool-cases, inl, inr, subst, All,
}
use goscratch.Base.Dict
use goscratch.Base.Dict.{Dict, get-put, get-remove}
use goscratch.Apperr.{ok, err, plain}
use goscratch.Port.CacheStore.{err_cache_miss}
use goscratch.RedisCache.{Client, sweep, get, set, delete, delete_by_prefix}
use goscratch.RedisCache.Sweep.{among, listed, IsIteration, IsRedis, is_literal, redis_cache_laws}

abbrev Stored : Type 0
Stored = Dict Str Str

remove_all : List Str → Stored → Stored
remove_all [] s = s
remove_all (k ∷ keys) s = Dict.remove k (remove_all keys s)

-- the pattern without its star
abbrev but_last : Str → Str
but_last [] = []
but_last (c ∷ []) = []
but_last (c ∷ d ∷ s) = c ∷ but_last (d ∷ s)

keys_under : Str → Stored → List Str
keys_under p [] = []
keys_under p ((k, v) ∷ s) = let rest = keys_under p s in if has_prefix k p then k ∷ rest else rest

abbrev server : Client
server = record {
  State = Stored;
  get = λ k s. ok (Dict.get k s);
  set = λ k v ttl s. (none, Dict.put k v s);
  del = λ keys s. (none, remove_all keys s);
  scan = λ cursor pattern count s. ok (keys_under (but_last pattern) s, 0);
  exists = λ k s. ok 0;
  incr = λ k s. (err (plain []), s);
  decr = λ k s. (err (plain []), s);
  expire = λ k ttl s. (none, s);
  run_script = λ k now window max s. (err (plain []), s);
}

but_last-star : (p : Str) → but_last (p ++ lit "*") ≡ p
unfolding lit
but_last-star [] = refl
but_last-star (c ∷ []) = refl
but_last-star (c ∷ d ∷ p) = ap (λ t. c ∷ t) (but_last-star (d ∷ p))

get-remove_all :
    (keys : List Str) (j : Str) (s : Stored)
    → Dict.get j (remove_all keys s) ≡ (if among j keys then none else Dict.get j s)
unfolding remove_all among
get-remove_all [] j s = refl
get-remove_all (k ∷ keys) j s =
    ground (arith, get-remove k j (remove_all keys s), get-remove_all keys j s)

under-prefix : (p j : Str) (s : Stored) → among j (keys_under p s) ≡ true → has_prefix j p ≡ true
unfolding keys_under among
under-prefix p j [] h = absurd (ground arith)
under-prefix p j ((k, v) ∷ s) h = ground (arith, under-prefix p j s, str_eq_iff k j)

under_complete :
    (p j : Str) (s : Stored)
    → has_prefix j p ≡ true
    → Dict.get j s ≢ none
    → among j (keys_under p s) ≡ true
unfolding keys_under among Dict.get
under_complete p j [] under there = absurd (there refl)
under_complete p j ((k, v) ∷ s) under there = elim (Bool-cases (str_eq k j)) [
  | inl same ↦ ground (arith, str_eq_iff k j)
  | inr other ↦
      let rest = under_complete p j s under (λ absent. there (ground arith)) in ground arith
]

page_complete :
    (p j : Str) (pages : List (Stored × List Str))
    → is_literal p ≡ true
    → IsIteration server p 0 pages
    → has_prefix j p ≡ true
    → All (λ (t : Stored × List Str). Dict.get j t.0 ≢ none) pages
    → listed server j pages ≡ true
unfolding listed
page_complete p j [] literal h under there = absurd (omega (arith, h))
page_complete p j ((s, keys) ∷ []) literal h under there =
    let whole : keys_under p s ≡ keys =
      ap (λ t. keys_under t s) (sym (but_last-star p)) ∙ ground (arith, h) in
    ground (arith, subst (λ t. among j t ≡ true) whole (under_complete p j s under there.0))
page_complete p j ((s, keys) ∷ page ∷ pages) literal h under there =
    absurd (ground (arith, h.1, h.2))

page_keys :
    (p : Str) (next : ℕ) (s : Stored) (keys : List Str)
    → server.scan 0 (p ++ lit "*") 100 s ≡ ok (keys, next)
    → (keys_under p s ≡ keys) × (next ≡ 0)
page_keys p next s keys page =
    (ap (λ t. keys_under t s) (sym (but_last-star p)) ∙ ground (arith, page), ground (arith, page))

abbrev server_laws : IsRedis server
server_laws = record {
  lookup = λ k s. Dict.get k s;
  get-lookup = λ k s. refl;
  lookup-set = λ k j v ttl s done. get-put k j v s;
  lookup-del = λ keys j s done. get-remove_all keys j s;
  scan_matches = λ p j c next s keys literal page on.
      under-prefix p j s (subst (λ t. among j t ≡ true) (sym (page_keys p next s keys page).0) on);
  scan_complete = page_complete;
  rank = λ c. c;
  scan_ends = λ p c next s keys page more. absurd (more (page_keys p next s keys page).1);
}

redis_cache_laws_example :
    ((p : Str) (s : Stored) → sweep server 1 0 p s ≢ none)
    × ((k j v : Str) (ttl : ℕ) (s : Stored)
        → (set server k v ttl s).0 ≡ none
        → get server j (set server k v ttl s).1 ≡ (if str_eq k j then ok v else get server j s))
    × ((k j : Str) (s : Stored)
        → (delete server k s).0 ≡ none
        → get server j (delete server k s).1
          ≡ (if str_eq k j then err err_cache_miss else get server j s))
    × ((p j : Str) (s : Stored)
        → is_literal p ≡ true
        → (delete_by_prefix server 1 p s).0 ≡ none
        → get server j (delete_by_prefix server 1 p s).1
          ≡ (if has_prefix j p then err err_cache_miss else get server j s))
redis_cache_laws_example = redis_cache_laws server server_laws 1 (omega arith)
