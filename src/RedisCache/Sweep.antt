-- ===== src/RedisCache/Sweep.antt =====
-- What the Redis cache makes of Redis: the laws of a cache, for prefixes that a glob takes
-- literally.
use goscratch.Base.{
  ℕ, zero, suc, ◌≡◌, ◌≢◌, ◌<◌, inl, inr, refl, ap, sym, subst, ◌∙◌, arith, Bool, true, false, not,
  ◌&&◌, ◌||◌, Bool-cases, Option, none, some, Option-cases, List, [], ◌∷◌, ◌++◌, if◌then◌else◌,
  ◌==◌, All, Str, lit, str_eq, has_prefix,
}
use goscratch.Apperr.{GoError, Result, ok, err, Result-cases}
use goscratch.Port.CacheStore.{err_cache_miss}
use goscratch.RedisCache.{Client, get, set, delete, del_page, sweep, delete_by_prefix, failing}

-- a prefix that a glob pattern takes as it is written: without *, ?, [ and backslash
unfoldable pub is_literal : Str → Bool
is_literal [] = true
is_literal (c ∷ p) = not (c == 42 || c == 63 || c == 91 || c == 92) && is_literal p

-- a key among keys
unfoldable pub among : Str → List Str → Bool
among j [] = false
among j (k ∷ keys) = str_eq k j || among j keys

module _ (R : Client) where
  open R use {State}

  -- the pages of a SCAN for a prefix from a cursor to its end: the state at each, and its keys
  abbrev pub IsIteration : Str → ℕ → List (State × List Str) → Type 0
  IsIteration p c [] = Path ℕ 0 1
  IsIteration p c ((s, keys) ∷ []) = R.scan c (p ++ lit "*") 100 s ≡ ok (keys, 0)
  IsIteration p c ((s, keys) ∷ page ∷ pages) =
      (next : ℕ) × (R.scan c (p ++ lit "*") 100 s ≡ ok (keys, next))
      × (next ≢ 0)
      × IsIteration p next (page ∷ pages)

  unfoldable pub listed : Str → List (State × List Str) → Bool
  unfolding among
  listed j [] = false
  listed j ((s, keys) ∷ pages) = among j keys || listed j pages

  -- What Redis documents of a server that answers, before the TTL of a key has passed. `lookup` is
  -- what the database holds. For a literal prefix with a star, a full iteration of SCAN lists every
  -- key that was there all along, and only keys that begin with the prefix. The cursors of an
  -- iteration come to an end, whatever the pattern.
  pub record IsRedis : Type 0 where
    pub lookup : Str → State → Option Str
    pub get-lookup : (k : Str) (s : State) → R.get k s ≡ ok (lookup k s)
    pub lookup-set :
        (k j v : Str) (ttl : ℕ) (s : State)
        → (R.set k v ttl s).0 ≡ none
        → lookup j (R.set k v ttl s).1 ≡ (if str_eq k j then some v else lookup j s)
    pub lookup-del :
        (keys : List Str) (j : Str) (s : State)
        → (R.del keys s).0 ≡ none
        → lookup j (R.del keys s).1 ≡ (if among j keys then none else lookup j s)
    pub scan_matches :
        (p j : Str) (c next : ℕ) (s : State) (keys : List Str)
        → is_literal p ≡ true
        → R.scan c (p ++ lit "*") 100 s ≡ ok (keys, next)
        → among j keys ≡ true
        → has_prefix j p ≡ true
    pub scan_complete :
        (p j : Str) (pages : List (State × List Str))
        → is_literal p ≡ true
        → IsIteration p 0 pages
        → has_prefix j p ≡ true
        → All (λ (t : State × List Str). lookup j t.0 ≢ none) pages
        → listed j pages ≡ true
    pub rank : ℕ → ℕ
    pub scan_ends :
        (p : Str) (c next : ℕ) (s : State) (keys : List Str)
        → R.scan c (p ++ lit "*") 100 s ≡ ok (keys, next)
        → next ≢ 0
        → rank next < rank c

  sweep-next :
      (fuel c next : ℕ) (p : Str) (s : State) (keys : List Str)
      → R.scan c (p ++ lit "*") 100 s ≡ ok (keys, next)
      → (del_page R keys s).0 ≡ none
      → (next == 0) ≡ false
      → sweep R (suc fuel) c p s ≡ sweep R fuel next p (del_page R keys s).1
  unfolding sweep
  sweep-next fuel c next p s keys page done more = rw (page, done, more, sweep) refl

  sweep-last :
      (fuel c next : ℕ) (p : Str) (s : State) (keys : List Str)
      → R.scan c (p ++ lit "*") 100 s ≡ ok (keys, next)
      → (del_page R keys s).0 ≡ none
      → (next == 0) ≡ true
      → sweep R (suc fuel) c p s ≡ some (none, (del_page R keys s).1)
  unfolding sweep
  sweep-last fuel c next p s keys page done last = rw (page, done, last, sweep) refl

  module _ (L : IsRedis) where
    open L use {lookup, rank}

    -- With fuel for the rank of the cursor the loop returns.
    sweep-returns : (fuel c : ℕ) (p : Str) (s : State) → rank c < fuel → sweep R fuel c p s ≢ none
    unfolding sweep
    sweep-returns zero c p s enough h = absurd (omega arith)
    sweep-returns (suc fuel) c p s enough h = elim (Result-cases (R.scan c (p ++ lit "*") 100 s)) [
      | inr (e, failed) ↦ absurd (ground arith)
      | inl ((keys, next), page) ↦ elim (Option-cases (del_page R keys s).0) [
        | inr (e, failed) ↦ absurd (ground arith)
        | inl done ↦ elim (Bool-cases (next == 0)) [
          | inl last ↦ absurd (ground arith)
          | inr more ↦
              let less = L.scan_ends p c next s keys page (λ z. ground arith) in
              sweep-returns fuel next p (del_page R keys s).1 (omega arith)
                (sym (sweep-next fuel c next p s keys page done more) ∙ h)
        ]
      ]
    ]

    del_page-lookup :
        (keys : List Str) (j : Str) (s : State)
        → (del_page R keys s).0 ≡ none
        → lookup j (del_page R keys s).1 ≡ (if among j keys then none else lookup j s)
    unfolding del_page among
    del_page-lookup [] j s done = refl
    del_page-lookup (k ∷ keys) j s done = L.lookup-del (k ∷ keys) j s done

    -- what a loop that succeeds has done, page by page
    abbrev Swept : Str → ℕ → State → State → List Str → List (State × List Str) → Type 0
    Swept p c s s' keys rest =
        IsIteration p c ((s, keys) ∷ rest)
        × ((j : Str) → lookup j s' ≡ (if listed j ((s, keys) ∷ rest) then none else lookup j s))
        × ((j : Str)
            → lookup j s' ≢ none
            → All (λ (t : State × List Str). lookup j t.0 ≢ none) ((s, keys) ∷ rest))
        × ((j : Str) → listed j ((s, keys) ∷ rest) ≡ true → has_prefix j p ≡ true)

    last_page :
        (p : Str) (c next : ℕ) (s : State) (keys : List Str)
        → is_literal p ≡ true
        → R.scan c (p ++ lit "*") 100 s ≡ ok (keys, next)
        → (del_page R keys s).0 ≡ none
        → next ≡ 0
        → Swept p c s (del_page R keys s).1 keys []
    unfolding listed
    last_page p c next s keys literal page done last =
        let looked : (j : Str)
            → lookup j (del_page R keys s).1
              ≡ (if listed j ((s, keys) ∷ []) then none else lookup j s) =
          λ j. ground (arith, del_page-lookup keys j s done) in
        (
          page ∙ ap (λ n. ok (keys, n)) last,
          looked,
          λ j there. (λ absent. there (ground (arith, looked j)), tt),
          λ j on. L.scan_matches p j c next s keys literal page (ground arith),
        )

    first_page :
        (p : Str) (c next : ℕ) (s s' : State) (keys keys' : List Str)
        (rest : List (State × List Str))
        → is_literal p ≡ true
        → R.scan c (p ++ lit "*") 100 s ≡ ok (keys, next)
        → (del_page R keys s).0 ≡ none
        → next ≢ 0
        → Swept p next (del_page R keys s).1 s' keys' rest
        → Swept p c s s' keys (((del_page R keys s).1, keys') ∷ rest)
    unfolding listed
    first_page p c next s s' keys keys' rest literal page done more h =
        let s₁ = (del_page R keys s).1 in
        let deleted : (j : Str) → lookup j s₁ ≡ (if among j keys then none else lookup j s) =
          λ j. del_page-lookup keys j s done in
        (
          (next, page, more, h.0),
          λ j. ground (arith, deleted j, h.1 j),
          λ j there. (λ absent. (h.2 j there).0 (ground (arith, deleted j)), h.2 j there),
          λ j on. elim (Bool-cases (among j keys)) [
            | inl first ↦ L.scan_matches p j c next s keys literal page first
            | inr later ↦ h.3 j (ground arith)
          ],
        )

    swept :
        (fuel c : ℕ) (p : Str) (s s' : State)
        → is_literal p ≡ true
        → sweep R fuel c p s ≡ some (none, s')
        → (keys : List Str) × (rest : List (State × List Str)) × Swept p c s s' keys rest
    unfolding sweep
    swept zero c p s s' literal h = absurd (ground arith)
    swept (suc fuel) c p s s' literal h = elim (Result-cases (R.scan c (p ++ lit "*") 100 s)) [
      | inr (e, failed) ↦ absurd (ground arith)
      | inl ((keys, next), page) ↦ elim (Option-cases (del_page R keys s).0) [
        | inr (e, failed) ↦ absurd (ground arith)
        | inl done ↦ elim (Bool-cases (next == 0)) [
          | inl last ↦
              let both = sym (sweep-last fuel c next p s keys page done last) ∙ h in
              let end : (del_page R keys s).1 ≡ s' = ground (arith, both) in
              (
                keys,
                [],
                subst (λ t. Swept p c s t keys []) end
                    (last_page p c next s keys literal page done (ground arith)),
              )
          | inr more ↦
              let (keys', rest, later) =
                swept fuel next p (del_page R keys s).1 s' literal
                  (sym (sweep-next fuel c next p s keys page done more) ∙ h) in
              (
                keys,
                ((del_page R keys s).1, keys') ∷ rest,
                first_page p c next s s' keys keys' rest literal page done (λ z. ground arith)
                    later,
              )
        ]
      ]
    ]

    sweep-lookup :
        (fuel : ℕ) (p j : Str) (s s' : State)
        → is_literal p ≡ true
        → sweep R fuel 0 p s ≡ some (none, s')
        → lookup j s' ≡ (if has_prefix j p then none else lookup j s)
    sweep-lookup fuel p j s s' literal h =
        let (keys, rest, all) = swept fuel 0 p s s' literal h in
        elim (Bool-cases (has_prefix j p)) [
          | inl under ↦ elim (Option-cases (lookup j s')) [
            | inl gone ↦ rw under gone
            | inr (v, there) ↦
                let listed_all =
                  L.scan_complete p j ((s, keys) ∷ rest) literal all.0 under
                    (all.2 j (λ absent. ground arith)) in
                absurd (ground (arith, all.1 j))
          ]
          | inr other ↦ elim (Bool-cases (listed j ((s, keys) ∷ rest))) [
            | inl on ↦ absurd (ground (arith, all.3 j on))
            | inr off ↦ rw other (ground (arith, all.1 j))
          ]
        ]

    abbrev reply : Option Str → Result Str
    reply none = err err_cache_miss
    reply (some v) = ok v

    get_reply : (k : Str) (s : State) → get R k s ≡ reply (lookup k s)
    unfolding get
    get_reply k s = elim (Option-cases (lookup k s)) [
      | inl missing ↦ rw (L.get-lookup k s, missing, get) refl
      | inr (v, found) ↦ rw (L.get-lookup k s, found, get) refl
    ]

    reply_if :
        (b : Bool) (found : Option Str) (k : Str) (s t : State)
        → lookup k t ≡ (if b then found else lookup k s)
        → get R k t ≡ (if b then reply found else get R k s)
    reply_if true found k s t h = get_reply k t ∙ ap reply h
    reply_if false found k s t h = get_reply k t ∙ ap reply h ∙ sym (get_reply k s)

    failing-none : (what : Str) (e : Option GoError) → failing what e ≡ none → e ≡ none
    unfolding failing
    failing-none what none h = refl
    failing-none what (some e) h = absurd (ground arith)

    single : (k j : Str) → among j (k ∷ []) ≡ str_eq k j
    unfolding among
    single k j = ground arith

    swept_reply :
        (fuel : ℕ) (p j : Str) (s : State)
        → is_literal p ≡ true
        → (delete_by_prefix R fuel p s).0 ≡ none
        → get R j (delete_by_prefix R fuel p s).1
          ≡ (if has_prefix j p then err err_cache_miss else get R j s)
    unfolding delete_by_prefix
    swept_reply fuel p j s literal done = elim (Option-cases (sweep R fuel 0 p s)) [
      | inl out ↦ absurd (ground arith)
      | inr ((failure, s'), returned) ↦
          let clean : failure ≡ none = ground arith in
          let whole = returned ∙ ap (λ e. some (e, s')) clean in
          rw (whole, delete_by_prefix)
            (reply_if (has_prefix j p) none j s s' (sweep-lookup fuel p j s s' literal whole))
    ]

    -- For a Redis that keeps its promises, and fuel beyond the rank of the cursor 0: DeleteByPrefix
    -- returns; and a set, a deletion, and a deletion by a prefix without the characters *, ?, [ and
    -- backslash, have done to every key, when they report success, what the laws of a working cache
    -- say: afterwards Get finds the value set, misses the key deleted or the keys under the prefix,
    -- and finds the others as before.
    pub redis_cache_laws :
        (fuel : ℕ)
        → rank 0 < fuel
        → ((p : Str) (s : State) → sweep R fuel 0 p s ≢ none)
          × ((k j v : Str) (ttl : ℕ) (s : State)
              → (set R k v ttl s).0 ≡ none
              → get R j (set R k v ttl s).1 ≡ (if str_eq k j then ok v else get R j s))
          × ((k j : Str) (s : State)
              → (delete R k s).0 ≡ none
              → get R j (delete R k s).1 ≡ (if str_eq k j then err err_cache_miss else get R j s))
          × ((p j : Str) (s : State)
              → is_literal p ≡ true
              → (delete_by_prefix R fuel p s).0 ≡ none
              → get R j (delete_by_prefix R fuel p s).1
                ≡ (if has_prefix j p then err err_cache_miss else get R j s))
    unfolding set delete
    redis_cache_laws fuel enough = (
      λ p s. sweep-returns fuel 0 p s enough,
      λ k j v ttl s done.
          reply_if (str_eq k j) (some v) j s (R.set k v ttl s).1
            (L.lookup-set k j v ttl s (failing-none _ _ done)),
      λ k j s done. reply_if (str_eq k j) none j s (R.del (k ∷ []) s).1 (
          subst (λ b. lookup j (R.del (k ∷ []) s).1 ≡ (if b then none else lookup j s)) (single k j)
            (L.lookup-del (k ∷ []) j s (failing-none _ _ done))),
      λ p j s literal done. swept_reply fuel p j s literal done,
    )
