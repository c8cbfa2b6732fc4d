-- ===== src/Casbin/Adapter/Stale.antt =====
-- What a change of the policy that ends in an error leaves in the cache of decisions.
use goscratch.Base.{◌≡◌, refl, Bool, Option, some, List, Str, arith, Option-cases, inl, inr}
use goscratch.Apperr.{GoError, ok}
use goscratch.Casbin.Cache.{Cache}
use goscratch.Casbin.Adapter.{
  Enforcer, Adapter, Update, apply, guarded, look_up, remember, enforce, validate_policy_args,
  add_role_for_user, remove_role_for_user, add_permission_for_role, remove_permission_for_role,
  add_permission_for_user, remove_permission_for_user,
}

module _ (E : Enforcer) where
  -- the call, if it returns an error, has left the cached decision of a triple
  abbrev pub KeepsCached : (Adapter E → Option GoError × Adapter E) → Adapter E → Type 0
  KeepsCached call a =
      (sub obj act : Str) (v : Bool) (x : GoError)
      → (look_up E sub obj act a).0 ≡ some v
      → (call a).0 ≡ some x
      → (enforce E sub obj act (call a).1).0 ≡ ok v

  hit_decides :
      (sub obj act : Str) (v : Bool) (a b : Adapter E)
      → b.cache ≡ a.cache
      → (look_up E sub obj act a).0 ≡ some v
      → (enforce E sub obj act b).0 ≡ ok v
  unfolding enforce look_up remember
  hit_decides sub obj act v a b same hit = rw (same, hit, enforce, look_up) refl

  apply-keeps :
      (update : Update E) (on_success : Cache → Cache) (a : Adapter E) (x : GoError)
      → (apply E update on_success a).0 ≡ some x
      → (apply E update on_success a).1.cache ≡ a.cache
  unfolding apply
  apply-keeps update on_success a x h = elim (Option-cases (update a.policies).0) [
    | inl done ↦ absurd (ground arith)
    | inr (e, failed) ↦ rw (failed, apply) refl
  ]

  guarded-keeps :
      (args : List Str) (update : Update E) (on_success : Cache → Cache) (a : Adapter E)
      → KeepsCached (guarded E args update on_success) a
  unfolding guarded
  guarded-keeps args update on_success a sub obj act v x hit h =
      elim (Option-cases (validate_policy_args args)) [
        | inr (e, invalid) ↦
            hit_decides sub obj act v a (guarded E args update on_success a).1
              (rw (invalid, guarded) refl) hit
        | inl valid ↦
            hit_decides sub obj act v a (guarded E args update on_success a).1
              (rw (valid, guarded) (apply-keeps update on_success a x (rw (valid, guarded) at h)))
              hit
      ]

  -- Whatever the enforcer has done to the policy: when one of the six changes of a role or a
  -- permission returns an error (so Casbin does when the watcher fails after the change), a
  -- decision that was in the cache before it is still given after it.
  pub failed_changes_keep_decisions :
      (subject obj act : Str) (a : Adapter E)
      → KeepsCached (add_role_for_user E subject obj) a
        × KeepsCached (remove_role_for_user E subject obj) a
        × KeepsCached (add_permission_for_role E subject obj act) a
        × KeepsCached (remove_permission_for_role E subject obj act) a
        × KeepsCached (add_permission_for_user E subject obj act) a
        × KeepsCached (remove_permission_for_user E subject obj act) a
  unfolding add_role_for_user remove_role_for_user add_permission_for_role
      remove_permission_for_role add_permission_for_user remove_permission_for_user
  failed_changes_keep_decisions subject obj act a = (
    guarded-keeps _ _ _ a,
    guarded-keeps _ _ _ a,
    guarded-keeps _ _ _ a,
    guarded-keeps _ _ _ a,
    guarded-keeps _ _ _ a,
    guarded-keeps _ _ _ a,
  )
