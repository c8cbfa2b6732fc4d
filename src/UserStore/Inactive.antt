-- ===== src/UserStore/Inactive.antt =====
-- A change of password against the repository: what UpdatePassword leaves of the row of a user who
-- is not active.
use goscratch.Base.{
  ℕ, ◌<◌, ◌≡◌, refl, ap, ◌∙◌, inl, inr, arith, Bool, true, false, ◌&&◌, Option, none, some, [], ◌∷◌,
  ◌==◌, Bool-cases, Str, lit, All, All-weaken,
}
use goscratch.Apperr.{GoError, ok}
use goscratch.User.{Crypto, change_password}
use goscratch.UserQueries
use goscratch.UserQueries.{UserRow, Table, answer, active_is, find_row, get_user_by_id, update_rows}
use goscratch.UserStore.{
  Db, pg_repo, to_domain, get_by_id, update_password, one_user, ask, exec, exec_on,
}
use goscratch.UserStore.Order.{Sorted}

update_rows-none :
    (p : UserRow → Bool) (f : UserRow → UserRow) (table : Table)
    → All (λ r. p r ≡ false) table
    → update_rows p f table ≡ table
unfolding update_rows
update_rows-none p f [] h = refl
update_rows-none p f (row ∷ table) h = ground (arith, h.0, update_rows-none p f table h.1)

-- Of the only row with an id, found inactive, the statement of UpdatePassword changes nothing.
inactive_unchanged :
    (f : UserRow → UserRow) (n : ℕ) (row : UserRow) (table : Table)
    → Sorted table
    → find_row (λ r. r.id == n) table ≡ answer row
    → active_is true row ≡ false
    → update_rows (λ r. (r.id == n) && active_is true r) f table ≡ table
unfolding update_rows find_row
inactive_unchanged f n row [] sorted found inactive = refl
inactive_unchanged f n row (first ∷ table) sorted found inactive =
    elim (Bool-cases (first.id == n)) [
      | inl here ↦
          let rest : update_rows (λ r. (r.id == n) && active_is true r) f table ≡ table =
            update_rows-none (λ r. (r.id == n) && active_is true r) f table
              (All-weaken (λ (r : UserRow). first.id < r.id)
                (λ r. ((r.id == n) && active_is true r) ≡ false) (λ r lt. ground arith) table
                sorted.0) in
          ground arith
      | inr other ↦
          let rest = inactive_unchanged f n row table sorted.1 (ground arith) inactive in
          ground arith
    ]

module _ (db : Db) (format_time : ℕ → Str) where
  saved :
      (id query failure : Str) (n : ℕ) (statement : ℕ → Table → Table) (table : Table)
      → db.parse_uuid id ≡ some n
      → db.outage query ≡ none
      → exec_on db id query failure statement table ≡ (none, statement n table)
  unfolding exec_on exec
  saved id query failure n statement table parsed up = ground arith

  -- For a table sorted by id in which the row of the id is not active, a password that matches
  -- the row's, and queries, a hash and a revocation that do not fail: ChangePassword reports
  -- success, the sessions are revoked, and the table is as it was, so that the old password stays.
  pub change_password-inactive :
      {S : Type 0} (crypto : Crypto) (revoke : Str → S → Option GoError × S)
      (id current new hash : Str) (n : ℕ) (row : UserRow) (table : Table) (s : S)
      → Sorted table
      → db.parse_uuid id ≡ some n
      → get_user_by_id n table ≡ answer row
      → active_is true row ≡ false
      → crypto.compare_hash row.password_hash current ≡ none
      → crypto.generate_hash new ≡ ok hash
      → db.outage (lit "GetUserByID") ≡ none
      → db.outage (lit "UpdatePassword") ≡ none
      → (revoke id s).0 ≡ none
      → change_password format_time (pg_repo db) crypto (some revoke) id current new table s
        ≡ ((none, table), (revoke id s).1)
  unfolding change_password get_by_id update_password exec_on exec ask one_user to_domain
      get_user_by_id UserQueries.update_password
  change_password-inactive crypto revoke id current new hash n row table s sorted parsed found
        inactive matches hashed up up' revoked =
      let same : UserQueries.update_password db.now n hash table ≡ table =
        inactive_unchanged
          (λ (r : UserRow). record r { password_hash = hash; updated_at = some db.now }) n row table
          sorted found inactive in
      let known : get_by_id db id table ≡ ok (to_domain db row) =
        rw (parsed, up, found, get_by_id, ask, one_user) refl in
      let unsaved : (pg_repo db).update_password id hash table ≡ (none, table) =
        saved id (lit "UpdatePassword") (lit "failed to update password") n
          (λ n. UserQueries.update_password db.now n hash) table parsed up'
        ∙ ap (λ t. (none, t)) same in
      rw (known, matches, hashed, unsaved, revoked, change_password)
        (ap (λ (t : Option GoError × Table). ((none, t.1), (revoke id s).1)) unsaved)
