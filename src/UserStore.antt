-- ===== src/UserStore.antt =====
-- internal/module/user/repository/user_repository.go with pkg/pgutil/pgutil.go: the repository over
-- the queries of UserQueries. uuid.Parse and its inverse, ILIKE, the fresh ids and the clock of the
-- database are parameters; `outage` is the error, if any, that a query ends with whatever the table
-- holds. Metrics and traces are left out. A limit is at most 101, so its int32 does not wrap.
pub mod Order
pub mod Walk
pub mod Inactive
mod Tests
use mathlib.Core.List.{reverse}
use goscratch.Base.{
  ℕ, zero, suc, ◌+◌, Bool, true, false, not, ◌&&◌, ◌||◌, Option, none, some, List, [], ◌∷◌, ◌++◌,
  map, if◌then◌else◌, Str, lit, str_eq, has_prefix,
}
use goscratch.Base.Int.{ℤ, pos, negsuc, leb_ℤ, ltb_ℤ}
use goscratch.Apperr.{
  GoError, plain, app, wrapped, error_text, Result, ok, err, not_foundf, conflictf,
}
use goscratch.Auth.{User}
use goscratch.User.{Repo, UserFilter, Opt}
use goscratch.UserQueries
use goscratch.UserQueries.{
  DbError, no_rows, pg_error, other_error, Answer, answer, failed, UserRow, Table, ListUsersParams,
}

pub record Db : Type 0 where
  pub parse_uuid : Str → Option ℕ
  pub show_uuid : ℕ → Str
  pub ilike : Str → Str → Bool
  pub outage : Str → Option DbError
  pub fresh : ℕ
  pub now : ℕ

-- the text of an error of the server is its message and its SQLSTATE
unfoldable pub db_error : DbError → GoError
db_error no_rows = plain (lit "no rows in result set")
db_error (pg_error code text) = plain (text ++ lit " (SQLSTATE " ++ code ++ lit ")")
db_error (other_error e) = e

-- strings.Contains
unfoldable pub contains : Str → Str → Bool
contains [] part = has_prefix [] part
contains (b ∷ s) part = has_prefix (b ∷ s) part || contains s part

-- IsDuplicateKeyError
unfoldable pub is_duplicate_key_error : DbError → Bool
unfolding contains db_error
is_duplicate_key_error (pg_error code text) = str_eq code (lit "23505")
is_duplicate_key_error e =
    contains (error_text (db_error e)) (lit "23505")
    || contains (error_text (db_error e)) (lit "duplicate key")

-- NormalizeFilter, of the limit
unfoldable pub normalize_filter_limit : ℤ → ℕ
normalize_filter_limit (pos zero) = 20
normalize_filter_limit (negsuc n) = 20
normalize_filter_limit (pos (suc n)) = if ltb_ℤ (pos 100) (pos (suc n)) then 100 else suc n

-- a limit as a number of rows; a normalised one is positive
unfoldable pub row_count : ℤ → ℕ
row_count (pos n) = n
row_count (negsuc n) = 0

-- NormalizeFilter; no query reads the two sort fields
unfoldable pub normalize_filter : UserFilter → UserFilter
unfolding normalize_filter_limit
normalize_filter filter = record filter {
  limit = pos (normalize_filter_limit filter.limit);
  sort_by = if str_eq filter.sort_by (lit "") then lit "created_at" else filter.sort_by;
  sort_order = if str_eq filter.sort_order (lit "") then lit "desc" else filter.sort_order;
}

-- a filter that is set and not empty
unfoldable pub text_param : Opt Str → Option Str
text_param o = if o.set && not (str_eq o.val (lit "")) then some o.val else none

module _ (db : Db) where
  -- NullableUUID
  unfoldable pub nullable_uuid : Str → Option ℕ
  nullable_uuid s = if str_eq s (lit "") then none else db.parse_uuid s

  -- sqlcUserToDomain; a time that is not there is Go's zero time, written 0
  unfoldable pub to_domain : UserRow → User
  to_domain row = record {
    id = db.show_uuid row.id;
    email = row.email;
    password_hash = row.password_hash;
    name = row.name;
    is_active = elim row.is_active [ none ↦ false | some b ↦ b ];
    created_at = elim row.created_at [ none ↦ 0 | some t ↦ t ];
    updated_at = elim row.updated_at [ none ↦ 0 | some t ↦ t ];
  }

  -- a query, unless it ends in an outage
  unfoldable pub ask : {A : Type 0} → Str → Answer A → Answer A
  ask name reply = elim (db.outage name) [ some e ↦ failed e | none ↦ reply ]

  unfoldable pub exec : Str → (Table → Table) → Table → Option DbError × Table
  exec name update table = elim (db.outage name) [
    | some e ↦ (some e, table)
    | none ↦ (none, update table)
  ]

  unfoldable pub ask_update :
      {A : Type 0} → Str → (Table → Answer A × Table) → Table → Answer A × Table
  ask_update name update table = elim (db.outage name) [
    | some e ↦ (failed e, table)
    | none ↦ update table
  ]

  abbrev pub user_not_found : Str → GoError
  user_not_found id = app (not_foundf (lit "user " ++ id ++ lit " not found"))

  abbrev pub email_taken : Str → GoError
  email_taken email = app (conflictf (lit "user with email " ++ email ++ lit " already exists"))

  -- the reply of a query for one row
  unfoldable pub one_user : GoError → Answer UserRow → Result User
  unfolding to_domain db_error
  one_user missing (answer row) = ok (to_domain row)
  one_user missing (failed no_rows) = err missing
  one_user missing (failed e) = err (wrapped (lit "failed to get user") (db_error e))

  unfoldable pub get_by_id : Str → Table → Result User
  unfolding ask one_user UserQueries.get_user_by_id
  get_by_id id table = elim (db.parse_uuid id) [
    | none ↦ err (user_not_found id)
    | some n ↦
        one_user (user_not_found id) (ask (lit "GetUserByID") (UserQueries.get_user_by_id n table))
  ]

  unfoldable pub get_by_email : Str → Table → Result User
  unfolding ask one_user UserQueries.get_user_by_email
  get_by_email email table =
      one_user (app (not_foundf (lit "user with email " ++ email ++ lit " not found")))
        (ask (lit "GetUserByEmail") (UserQueries.get_user_by_email email table))

  -- the parameters of both list queries; one row more than the limit is fetched
  unfoldable pub list_params : UserFilter → ListUsersParams
  unfolding normalize_filter row_count normalize_filter_limit nullable_uuid text_param
  list_params given =
      let filter = normalize_filter given in
      record {
        limit = row_count filter.limit + 1;
        cursor = nullable_uuid filter.cursor;
        search = text_param filter.search;
        email_filter = text_param filter.email;
        is_active = if filter.is_active.set then some filter.is_active.val else none;
      }

  unfoldable pub list : UserFilter → Table → Result (List User)
  unfolding ask list_params to_domain db_error UserQueries.list_users UserQueries.list_users_prev
  list filter table =
      let params = list_params filter in
      let reply =
        if str_eq filter.direction (lit "prev")
        then ask (lit "ListUsersPrev")
            (answer (reverse (UserQueries.list_users_prev db.ilike params table)))
        else ask (lit "ListUsers") (answer (UserQueries.list_users db.ilike params table)) in
      elim reply [
        | failed e ↦ err (wrapped (lit "failed to list users") (db_error e))
        | answer rows ↦ ok (map to_domain rows)
      ]

  unfoldable pub create : Str → Str → Str → Table → Result User × Table
  unfolding ask_update to_domain db_error is_duplicate_key_error UserQueries.create_user
  create email password_hash name table =
      let (reply, table') =
        ask_update (lit "CreateUser")
          (UserQueries.create_user db.fresh db.now email password_hash name) table in
      elim reply [
        | answer row ↦ (ok (to_domain row), table')
        | failed e ↦
            if is_duplicate_key_error e
            then (err (email_taken email), table')
            else (err (wrapped (lit "failed to create user") (db_error e)), table')
      ]

  unfoldable pub update_failed : Str → Str → DbError → GoError
  unfolding db_error is_duplicate_key_error
  update_failed id email no_rows = user_not_found id
  update_failed id email e =
      if is_duplicate_key_error e
      then email_taken email
      else wrapped (lit "failed to update user") (db_error e)

  unfoldable pub update : Str → Str → Str → Table → Result User × Table
  unfolding ask_update to_domain update_failed UserQueries.update_user
  update id name email table = elim (db.parse_uuid id) [
    | none ↦ (err (user_not_found id), table)
    | some n ↦
        let (reply, table') =
          ask_update (lit "UpdateUser") (UserQueries.update_user db.now n name email) table in
        elim reply [
          | answer row ↦ (ok (to_domain row), table')
          | failed e ↦ (err (update_failed id email e), table')
        ]
  ]

  -- the four statements that return no row: the id, the statement, and what its failure is called
  unfoldable pub exec_on : Str → Str → Str → (ℕ → Table → Table) → Table → Option GoError × Table
  unfolding exec db_error
  exec_on id query failure statement table = elim (db.parse_uuid id) [
    | none ↦ (some (user_not_found id), table)
    | some n ↦
        let (e, table') = exec query (statement n) table in
        elim e [ none ↦ (none, table') | some x ↦ (some (wrapped failure (db_error x)), table') ]
  ]

  unfoldable pub update_password : Str → Str → Table → Option GoError × Table
  unfolding exec_on UserQueries.update_password
  update_password id password_hash =
      exec_on id (lit "UpdatePassword") (lit "failed to update password")
        (λ n. UserQueries.update_password db.now n password_hash)

  unfoldable pub delete : Str → Table → Option GoError × Table
  unfolding exec_on UserQueries.set_active
  delete id =
      exec_on id (lit "DeleteUser") (lit "failed to delete user")
        (UserQueries.set_active false db.now)

  unfoldable pub activate : Str → Table → Option GoError × Table
  unfolding exec_on UserQueries.set_active
  activate id =
      exec_on id (lit "ActivateUser") (lit "failed to activate user")
        (UserQueries.set_active true db.now)

  unfoldable pub deactivate : Str → Table → Option GoError × Table
  unfolding exec_on UserQueries.set_active
  deactivate id =
      exec_on id (lit "DeactivateUser") (lit "failed to deactivate user")
        (UserQueries.set_active false db.now)

  unfoldable pub exists_by_email : Str → Table → Result Bool
  unfolding ask db_error UserQueries.user_exists_by_email
  exists_by_email email table =
      elim (ask (lit "UserExistsByEmail") (answer (UserQueries.user_exists_by_email email table))) [
        | answer b ↦ ok b
        | failed e ↦ err (wrapped (lit "failed to check email existence") (db_error e))
      ]

  unfoldable pub count : Option Bool → Table → Result ℕ
  unfolding ask db_error UserQueries.count_users
  count is_active table =
      elim (ask (lit "CountUsers") (answer (UserQueries.count_users is_active table))) [
        | answer n ↦ ok n
        | failed e ↦ err (wrapped (lit "failed to count users") (db_error e))
      ]

  abbrev pub pg_repo : Repo
  pg_repo = record {
    Rows = Table;
    get_by_id = get_by_id;
    list = list;
    exists_by_email = exists_by_email;
    create = create;
    update = update;
    update_password = update_password;
    delete = delete;
    activate = activate;
    deactivate = deactivate;
  }
