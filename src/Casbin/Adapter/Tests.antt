-- ===== src/Casbin/Adapter/Tests.antt =====
-- The adapter over a small enforcer that meets the assumptions: it allows a set of subjects.
use goscratch.Base.{
  ◌≡◌, ◌≢◌, refl, Bool, true, false, Option, some, none, List, [], ◌∷◌, arith, Str, lit, str_eq,
  str_eq_iff, if◌then◌else◌,
}
use goscratch.Apperr.{GoError, plain, ok}
use goscratch.Casbin.Cache.{new_cache}
use goscratch.Casbin.Adapter.{
  Enforcer, Adapter, WatcherOp, enforce, add_role_for_user, remove_role_for_user,
  add_permission_for_role, remove_permission_for_role, add_permission_for_user,
  remove_permission_for_user,
}
use goscratch.Casbin.Adapter.Stale.{KeepsCached, failed_changes_keep_decisions}
use goscratch.Casbin.Adapter.Coherence.{IsRbac}
use goscratch.Casbin.Adapter.Reach.{
  Reach, here, next, decided, role_added, enforce_after_any_history,
}

abbrev Subjects : Type 0
Subjects = Str → Bool

abbrev allow : Bool → List Str → Subjects → Option GoError × Subjects
allow v [] s = (none, s)
allow v (user ∷ _) s = (none, λ x. if str_eq user x then v else s x)

abbrev pub subjects : Enforcer
subjects = record {
  Policies = Subjects;
  enforce = λ sub obj act s. ok (s sub);
  add_policy = allow true;
  remove_policy = allow false;
  add_grouping = allow true;
  remove_grouping = allow false;
  load_policy = λ s. (none, λ x. false);
  roles_for_user = λ user s. ok [];
  users_for_role = λ role s. ok [];
  has_role = λ user role s. ok (s user);
  permissions_for_user = λ user s. ok [];
  implicit_permissions = λ user s. ok [];
}

allow_others :
    (v : Bool) (user sub : Str) (s : Subjects)
    → sub ≢ user
    → ok ((if str_eq user sub then v else s sub)) ≡ ok (s sub)
allow_others v user sub s ne = ground (arith, str_eq_iff user sub)

pub subjects-IsRbac : IsRbac subjects
subjects-IsRbac = record {
  add_policy_local = λ user obj act sub _ _ s free ne. allow_others true user sub s ne;
  remove_policy_local = λ user obj act sub _ _ s free ne. allow_others false user sub s ne;
  add_grouping_local = λ user role sub _ _ s free ne. allow_others true user sub s ne;
  remove_grouping_local = λ user role sub _ _ s free ne. allow_others false user sub s ne;
}

abbrev pub decode : Str → Option WatcherOp
decode msg = none

abbrev pub start : Adapter subjects
start = record { policies = λ x. false; cache = new_cache 10 }

-- alice is denied, is given a role, and is asked about again
abbrev pub denied : Adapter subjects
denied = (enforce subjects (lit "alice") (lit "users") (lit "read") start).1

abbrev pub granted : Adapter subjects
granted = (add_role_for_user subjects (lit "alice") (lit "admin") denied).1

pub history : Reach subjects decode start granted
history =
    next (next here (decided (lit "alice") (lit "users") (lit "read")))
      (role_added (lit "alice") (lit "admin") refl (λ sub obj act e h. cc))

enforce_after_any_history_example :
    (enforce subjects (lit "alice") (lit "users") (lit "read") granted).0
    ≡ subjects.enforce (lit "alice") (lit "users") (lit "read") granted.policies
enforce_after_any_history_example =
    enforce_after_any_history subjects subjects-IsRbac decode (λ x. false) 10 granted (lit "alice")
      (lit "users") (lit "read") history

-- an enforcer whose changes are made and then end in the error of the watcher
abbrev unheard : Enforcer
unheard = record subjects {
  add_grouping = λ p s. (some (plain (lit "publish failed")), (allow true p s).1);
}

abbrev denied_there : Adapter unheard
denied_there =
    (enforce unheard (lit "alice") (lit "users") (lit "read")
      (record { policies = λ x. false; cache = new_cache 10 })).1

failed_changes_keep_decisions_example :
    KeepsCached unheard (add_role_for_user unheard (lit "alice") (lit "admin")) denied_there
    × KeepsCached unheard (remove_role_for_user unheard (lit "alice") (lit "admin")) denied_there
    × KeepsCached unheard
        (add_permission_for_role unheard (lit "alice") (lit "admin") (lit "read"))
        denied_there
    × KeepsCached unheard
        (remove_permission_for_role unheard (lit "alice") (lit "admin") (lit "read"))
        denied_there
    × KeepsCached unheard
        (add_permission_for_user unheard (lit "alice") (lit "admin") (lit "read"))
        denied_there
    × KeepsCached unheard
        (remove_permission_for_user unheard (lit "alice") (lit "admin") (lit "read"))
        denied_there
failed_changes_keep_decisions_example =
    failed_changes_keep_decisions unheard (lit "alice") (lit "admin") (lit "read") denied_there
