-- ===== src/Casbin/Adapter/Coherence.antt =====
-- A cached decision is the enforcer's decision: what is assumed of the enforcer, the invariant, and
-- the operations that keep it.
use goscratch.Base.{
  ℕ, ◌≡◌, ◌≢◌, sym, Bool, false, none, some, [], ◌∷◌, arith, Str, str_eq, has_byte, str_eq_iff,
  Option-cases, Bool-cases, inl, inr, ◌∙◌,
}
use goscratch.Apperr.{GoError, ok, Result-cases}
use goscratch.Casbin.Cache
use goscratch.Casbin.Cache.{Cache, cache_key, has_separator}
use goscratch.Casbin.Cache.Keys.{cache_key-injective, has_prefix-cache_key}
use goscratch.Casbin.Cache.Sync.{IsValid, new_cache-IsValid}
use goscratch.Casbin.Cache.Valid.{get-IsValid, put-IsValid, invalidate_sub-IsValid, flush-IsValid}
use goscratch.Casbin.Cache.View.{decision}
use goscratch.Casbin.Cache.Triples.{
  get-decision, decision-get, decision-put, decision-invalidate_sub, decision-flush,
  decision-new_cache,
}
use goscratch.Casbin.Adapter.{Enforcer, Adapter, Update, apply, look_up, remember, enforce}

kept_decision :
    (user sub obj act : Str) (c : Cache) (v : Bool)
    → IsValid c
    → has_separator sub obj act ≡ false
    → has_byte 0 user ≡ false
    → decision (cache_key sub obj act) (Cache.invalidate_sub user c) ≡ some v
    → (sub ≢ user) × (decision (cache_key sub obj act) c ≡ some v)
kept_decision user sub obj act c v h clean nul held = elim (Bool-cases (str_eq sub user)) [
  | inl same ↦ absurd (
      ground (
        arith,
        decision-invalidate_sub user (cache_key sub obj act) c h,
        has_prefix-cache_key sub obj act user,
      ))
  | inr other ↦ (
    λ e. ground (arith, str_eq_iff sub user),
    ground (
      arith,
      decision-invalidate_sub user (cache_key sub obj act) c h,
      has_prefix-cache_key sub obj act user,
    ),
  )
]

module _ (E : Enforcer) where
  open E use {Policies, add_policy, remove_policy, add_grouping, remove_grouping, users_for_role}

  -- The call, made at this policy, does not return an error after it has changed a decision. Casbin
  -- changes the policy before it tells the watcher, and returns the watcher's error.
  abbrev pub FailsClean : Update E → Policies → Type 0
  FailsClean update s =
      (sub obj act : Str) (e : GoError)
      → (update s).0 ≡ some e
      → E.enforce sub obj act (update s).1 ≡ E.enforce sub obj act s

  -- a call about a subject that no other subject inherits from changes that subject's decisions
  -- only
  abbrev pub AffectsOnly : Str → Update E → Type 0
  AffectsOnly user update =
      (sub obj act : Str) (s : Policies)
      → users_for_role user s ≡ ok []
      → sub ≢ user
      → E.enforce sub obj act (update s).1 ≡ E.enforce sub obj act s

  -- What the adapter relies on.
  pub record IsRbac : Type 0 where
    pub add_policy_local :
        (user obj act : Str) → AffectsOnly user (add_policy (user ∷ obj ∷ act ∷ []))
    pub remove_policy_local :
        (user obj act : Str) → AffectsOnly user (remove_policy (user ∷ obj ∷ act ∷ []))
    pub add_grouping_local : (user role : Str) → AffectsOnly user (add_grouping (user ∷ role ∷ []))
    pub remove_grouping_local :
        (user role : Str) → AffectsOnly user (remove_grouping (user ∷ role ∷ []))

  pub record IsCoherent (p : Policies) (c : Cache) : Type 0 where
    pub valid : IsValid c
    pub agrees :
        (sub obj act : Str) (v : Bool)
        → has_separator sub obj act ≡ false
        → decision (cache_key sub obj act) c ≡ some v
        → E.enforce sub obj act p ≡ ok v

  -- a cache without decisions is coherent
  empty-IsCoherent :
      (p : Policies) (c : Cache) → IsValid c → ((k : Str) → decision k c ≡ none) → IsCoherent p c
  empty-IsCoherent p c valid empty = record {
    valid = valid;
    agrees = λ sub obj act v clean h. ground (arith, empty (cache_key sub obj act));
  }

  pub new_cache-IsCoherent : (p : Policies) (n : ℕ) → IsCoherent p (Cache.new_cache n)
  new_cache-IsCoherent p n =
      empty-IsCoherent p (Cache.new_cache n) (new_cache-IsValid n) (λ k. decision-new_cache k n)

  pub flush-IsCoherent :
      (p q : Policies) (c : Cache) → IsCoherent p c → IsCoherent q (Cache.flush c)
  flush-IsCoherent p q c h =
      empty-IsCoherent q (Cache.flush c) (flush-IsValid c h.valid) (λ k. decision-flush k c h.valid)

  same-IsCoherent :
      (p q : Policies) (c : Cache)
      → ((sub obj act : Str) → E.enforce sub obj act q ≡ E.enforce sub obj act p)
      → IsCoherent p c
      → IsCoherent q c
  same-IsCoherent p q c same h = record {
    valid = h.valid;
    agrees = λ sub obj act v clean held. same sub obj act ∙ h.agrees sub obj act v clean held;
  }

  invalidate_sub-IsCoherent :
      (user : Str) (p q : Policies) (c : Cache)
      → has_byte 0 user ≡ false
      → ((sub obj act : Str) → sub ≢ user → E.enforce sub obj act q ≡ E.enforce sub obj act p)
      → IsCoherent p c
      → IsCoherent q (Cache.invalidate_sub user c)
  invalidate_sub-IsCoherent user p q c nul others h = record {
    valid = invalidate_sub-IsValid user c h.valid;
    agrees = λ sub obj act v clean held.
        let kept = kept_decision user sub obj act c v h.valid clean nul held in
        others sub obj act kept.0 ∙ h.agrees sub obj act v clean kept.1;
  }

  get-IsCoherent :
      (sub obj act : Str) (p : Policies) (c : Cache)
      → IsCoherent p c
      → IsCoherent p (Cache.get sub obj act c).1
  get-IsCoherent sub obj act p c h = record {
    valid = get-IsValid sub obj act c h.valid;
    agrees = λ sub' obj' act' v clean held.
        h.agrees sub' obj' act' v clean
          (sym (decision-get sub obj act c (cache_key sub' obj' act')) ∙ held);
  }

  put-IsCoherent :
      (sub obj act : Str) (v : Bool) (p : Policies) (c : Cache)
      → E.enforce sub obj act p ≡ ok v
      → IsCoherent p c
      → IsCoherent p (Cache.put sub obj act v c)
  put-IsCoherent sub obj act v p c answer h = record {
    valid = put-IsValid sub obj act v c h.valid;
    agrees = λ sub' obj' act' w clean held.
        elim (decision-put sub obj act c v (cache_key sub' obj' act') w h.valid held) [
          | inl (clean', same_key, same_value) ↦
              let e = cache_key-injective sub' obj' act' sub obj act clean clean' same_key in
              cc (e.0, e.1, e.2, answer, same_value)
          | inr old ↦ h.agrees sub' obj' act' w clean old
        ];
  }

  abbrev pub IsCoherentAt : Adapter E → Type 0
  IsCoherentAt a = IsCoherent a.policies a.cache

  pub look_up-IsCoherent :
      (sub obj act : Str) (a : Adapter E)
      → IsCoherentAt a
      → IsCoherentAt (look_up E sub obj act a).1
  unfolding look_up
  look_up-IsCoherent sub obj act a h = get-IsCoherent sub obj act a.policies a.cache h

  pub remember-IsCoherent :
      (sub obj act : Str) (v : Bool) (a : Adapter E)
      → E.enforce sub obj act a.policies ≡ ok v
      → IsCoherentAt a
      → IsCoherentAt (remember E sub obj act v a)
  unfolding remember
  remember-IsCoherent sub obj act v a answer h =
      put-IsCoherent sub obj act v a.policies a.cache answer h

  -- a decision through a coherent cache is the enforcer's
  pub enforce_transparent :
      (sub obj act : Str) (a : Adapter E)
      → IsCoherentAt a
      → ((enforce E sub obj act a).0 ≡ E.enforce sub obj act a.policies)
        × ((enforce E sub obj act a).1.policies ≡ a.policies)
  unfolding enforce look_up remember
  enforce_transparent sub obj act a h = elim (Option-cases (Cache.get sub obj act a.cache).0) [
    | inl miss ↦ ground arith
    | inr (v, hit) ↦
        ground (arith, get-decision sub obj act a.cache h.valid, h.agrees sub obj act v)
  ]

  pub enforce-IsCoherent :
      (sub obj act : Str) (a : Adapter E)
      → IsCoherentAt a
      → IsCoherentAt (enforce E sub obj act a).1
  unfolding enforce look_up remember
  enforce-IsCoherent sub obj act a h =
      let kept = get-IsCoherent sub obj act a.policies a.cache h in
      elim (Option-cases (Cache.get sub obj act a.cache).0) [
        | inr (v, hit) ↦ rw (hit, enforce, look_up) kept
        | inl miss ↦ elim (Result-cases (E.enforce sub obj act a.policies)) [
          | inl (v, answer) ↦
              rw (miss, answer, enforce, look_up)
                (put-IsCoherent sub obj act v a.policies (Cache.get sub obj act a.cache).1 answer
                  kept)
          | inr (e, answer) ↦ rw (miss, answer, enforce, look_up) kept
        ]
      ]

  pub apply-flush-IsCoherent :
      (update : Update E) (a : Adapter E)
      → FailsClean update a.policies
      → IsCoherentAt a
      → IsCoherentAt (apply E update Cache.flush a).1
  unfolding apply
  apply-flush-IsCoherent update a clean h = elim (Option-cases (update a.policies).0) [
    | inl done ↦ rw (done, apply) (flush-IsCoherent a.policies (update a.policies).1 a.cache h)
    | inr (e, failed) ↦
        rw (failed, apply)
          (same-IsCoherent a.policies (update a.policies).1 a.cache
            (λ sub obj act. clean sub obj act e failed) h)
  ]

  pub apply_invalidate-IsCoherent :
      (user : Str) (update : Update E) (a : Adapter E)
      → FailsClean update a.policies
      → AffectsOnly user update
      → users_for_role user a.policies ≡ ok []
      → has_byte 0 user ≡ false
      → IsCoherentAt a
      → IsCoherentAt (apply E update (Cache.invalidate_sub user) a).1
  unfolding apply
  apply_invalidate-IsCoherent user update a clean only free nul h =
      elim (Option-cases (update a.policies).0) [
        | inl done ↦
            rw (done, apply)
              (invalidate_sub-IsCoherent user a.policies (update a.policies).1 a.cache nul
                (λ sub obj act ne. only sub obj act a.policies free ne) h)
        | inr (e, failed) ↦
            rw (failed, apply)
              (same-IsCoherent a.policies (update a.policies).1 a.cache
                (λ sub obj act. clean sub obj act e failed) h)
      ]
