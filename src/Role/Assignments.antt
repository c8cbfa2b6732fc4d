-- ===== src/Role/Assignments.antt =====
-- Assigning and removing roles over an authorizer whose role calls do what they report.
use goscratch.Base.{
  ◌≡◌, true, false, ◌&&◌, none, some, arith, if◌then◌else◌, Str, str_eq, str_eq_refl, str_eq_iff,
  inl, inr,
}
use goscratch.Apperr.{ok, Result-cases}
use goscratch.Port.Authorizer.{Authorizer, IsRoleStore}
use goscratch.Role.{assign_role, remove_role, or_internal, is_valid_role, has_already, has_not}

module _ (a : Authorizer) (L : IsRoleStore a) where
  open a use {State, has_role_for_user}

  assigned :
      (u r : Str) (s : State)
      → (assign_role a u r s).0 ≡ none
      → (is_valid_role r ≡ true)
        × (has_role_for_user u r s ≡ ok false)
        × ((a.add_role_for_user u r s).0 ≡ none)
        × ((assign_role a u r s).1 ≡ (a.add_role_for_user u r s).1)
  unfolding assign_role or_internal
  assigned u r s h = elim (Result-cases (has_role_for_user u r s)) [
    | inl (true, has) ↦ absurd (ground arith)
    | inl (false, has) ↦ ground arith
    | inr (e, failed) ↦ absurd (ground arith)
  ]

  removed :
      (u r : Str) (s : State)
      → (remove_role a u r s).0 ≡ none
      → (is_valid_role r ≡ true)
        × (has_role_for_user u r s ≡ ok true)
        × ((a.remove_role_for_user u r s).0 ≡ none)
        × ((remove_role a u r s).1 ≡ (a.remove_role_for_user u r s).1)
  unfolding remove_role or_internal
  removed u r s h = elim (Result-cases (has_role_for_user u r s)) [
    | inl (true, has) ↦ ground arith
    | inl (false, has) ↦ absurd (ground arith)
    | inr (e, failed) ↦ absurd (ground arith)
  ]

  refused_again :
      (u r : Str) (s : State)
      → is_valid_role r ≡ true
      → has_role_for_user u r s ≡ ok true
      → assign_role a u r s ≡ (some (has_already r), s)
  unfolding assign_role
  refused_again u r s valid has = ground arith

  absent_again :
      (u r : Str) (s : State)
      → is_valid_role r ≡ true
      → has_role_for_user u r s ≡ ok false
      → remove_role a u r s ≡ (some (has_not r), s)
  unfolding remove_role
  absent_again u r s valid has = ground arith

  restored :
      (u r v q : Str) (s s₁ : State) {s₂ : State}
      → has_role_for_user u r s ≡ ok false
      → has_role_for_user v q s₁
        ≡ (if str_eq u v && str_eq r q then ok true else has_role_for_user v q s)
      → has_role_for_user v q s₂
        ≡ (if str_eq u v && str_eq r q then ok false else has_role_for_user v q s₁)
      → has_role_for_user v q s₂ ≡ has_role_for_user v q s
  restored u r v q s s₁ had one two = ground (arith, str_eq_iff u v, str_eq_iff r q)

  -- After an assignment that reports no error: the role is a predefined one, the user did not have
  -- it and has it now, no other user or role is touched, and assigning it again is refused as a
  -- conflict and changes nothing.
  pub assign_role_grants :
      (u r : Str) (s : State)
      → (assign_role a u r s).0 ≡ none
      → let s' = (assign_role a u r s).1 in
        (is_valid_role r ≡ true)
        × (has_role_for_user u r s ≡ ok false)
        × ((v q : Str)
            → has_role_for_user v q s'
              ≡ (if str_eq u v && str_eq r q then ok true else has_role_for_user v q s))
        × (assign_role a u r s' ≡ (some (has_already r), s'))
  assign_role_grants u r s h =
      let (valid, had, done, next) = assigned u r s h in
      let now : (v q : Str)
          → has_role_for_user v q (assign_role a u r s).1
            ≡ (if str_eq u v && str_eq r q then ok true else has_role_for_user v q s) =
        λ v q. rw next (L.has_role-add u r v q s done) in
      let held : has_role_for_user u r (assign_role a u r s).1 ≡ ok true =
        ground (arith, now u r, str_eq_refl u, str_eq_refl r) in
      (valid, had, now, refused_again u r (assign_role a u r s).1 valid held)

  -- An assignment and a removal that both report no error leave every user with the roles the user
  -- had before, and removing the role once more is refused as not found.
  pub assign_role-remove_role :
      (u r : Str) (s : State)
      → (assign_role a u r s).0 ≡ none
      → (remove_role a u r (assign_role a u r s).1).0 ≡ none
      → let s' = (remove_role a u r (assign_role a u r s).1).1 in
        ((v q : Str) → has_role_for_user v q s' ≡ has_role_for_user v q s)
        × (remove_role a u r s' ≡ (some (has_not r), s'))
  assign_role-remove_role u r s h h' =
      let s₁ = (assign_role a u r s).1 in
      let (valid, had, grants, conflict) = assign_role_grants u r s h in
      let (valid', has, done, next) = removed u r s₁ h' in
      let back : (v q : Str)
          → has_role_for_user v q (remove_role a u r s₁).1 ≡ has_role_for_user v q s =
        λ v q.
          restored u r v q s s₁ had (grants v q) (rw next (L.has_role-remove u r v q s₁ done)) in
      (back, absent_again u r (remove_role a u r s₁).1 valid (rw (back u r) had))
