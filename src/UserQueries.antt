-- ===== src/UserQueries.antt =====
-- internal/module/user/repository/sqlc/user.sql.go: the queries on the users table, as functions on
-- it. The table is the list of its rows in the order of the primary key, which the database keeps;
-- a UUID is its 128 bits as a number, so that numbers are ordered as PostgreSQL orders UUIDs. A
-- nullable column is an option, and a test on NULL does not pass. What fails outside the query
-- (connection, time-out) is the argument `outage`, by the query's name.
use goscratch.Base.{
  ℕ, Bool, true, false, not, ◌&&◌, ◌||◌, Option, none, some, List, [], ◌∷◌, if◌then◌else◌, ◌==◌,
  ltb, take, length, filter_by, Str, lit, str_eq,
}
use mathlib.Core.List.{reverse}
use goscratch.Apperr.{GoError}

-- what pgx returns: no row, an error of the server with its code, or another error
pub data DbError : Type 0 where
  no_rows : DbError
  pg_error : Str → Str → DbError
  other_error : GoError → DbError

pub data Answer {ℓ} (A : Type ℓ) : Type ℓ where
  answer : A → Answer A
  failed : DbError → Answer A

-- sqlc.User
pub record UserRow : Type 0 where
  pub id : ℕ
  pub email : Str
  pub password_hash : Str
  pub name : Str
  pub is_active : Option Bool
  pub created_at : Option ℕ
  pub updated_at : Option ℕ

abbrev pub Table : Type 0
Table = List UserRow

-- ListUsersParams and ListUsersPrevParams
pub record ListUsersParams : Type 0 where
  pub limit : ℕ
  pub cursor : Option ℕ
  pub search : Option Str
  pub email_filter : Option Str
  pub is_active : Option Bool

-- SQL's `is_active = b`
unfoldable pub active_is : Bool → UserRow → Bool
active_is b row = elim row.is_active [ none ↦ false | some true ↦ b | some false ↦ not b ]

-- `ilike text pattern` is ILIKE '%' || pattern || '%'. The tests of both list queries but for the
-- one on the cursor.
unfoldable pub row_matches : (Str → Str → Bool) → ListUsersParams → UserRow → Bool
unfolding active_is
row_matches ilike params row =
    (elim params.search [ none ↦ true | some s ↦ ilike row.name s || ilike row.email s ])
    && (elim params.email_filter [ none ↦ true | some e ↦ str_eq row.email e ])
    && (elim params.is_active [ none ↦ true | some b ↦ active_is b row ])

unfoldable pub after_cursor : Option ℕ → UserRow → Bool
after_cursor none row = true
after_cursor (some k) row = ltb k row.id

unfoldable pub before_cursor : Option ℕ → UserRow → Bool
before_cursor none row = true
before_cursor (some k) row = ltb row.id k

unfoldable pub list_users : (Str → Str → Bool) → ListUsersParams → Table → List UserRow
unfolding row_matches after_cursor
list_users ilike params table =
    take params.limit
      (filter_by (λ row. after_cursor params.cursor row && row_matches ilike params row) table)

unfoldable pub list_users_prev : (Str → Str → Bool) → ListUsersParams → Table → List UserRow
unfolding row_matches before_cursor
list_users_prev ilike params table = take params.limit (
    reverse
      (filter_by (λ row. before_cursor params.cursor row && row_matches ilike params row) table))

-- the first row that passes a test; the tests of the program's queries pass for one row at most
unfoldable pub find_row : (UserRow → Bool) → Table → Answer UserRow
find_row p [] = failed no_rows
find_row p (row ∷ table) = let rest = find_row p table in if p row then answer row else rest

unfoldable pub any_row : (UserRow → Bool) → Table → Bool
any_row p [] = false
any_row p (row ∷ table) = p row || any_row p table

unfoldable pub get_user_by_id : ℕ → Table → Answer UserRow
unfolding find_row
get_user_by_id id = find_row (λ row. row.id == id)

unfoldable pub get_user_by_email : Str → Table → Answer UserRow
unfolding find_row active_is
get_user_by_email email = find_row (λ row. str_eq row.email email && active_is true row)

unfoldable pub user_exists_by_email : Str → Table → Bool
unfolding any_row active_is
user_exists_by_email email = any_row (λ row. str_eq row.email email && active_is true row)

unfoldable pub count_users : Option Bool → Table → ℕ
unfolding active_is
count_users is_active table =
    length (filter_by (λ row. elim is_active [ none ↦ true | some b ↦ active_is b row ]) table)

-- the error of the unique constraint of a column
abbrev pub unique_violation : DbError
unique_violation = pg_error (lit "23505") (lit "duplicate key value violates unique constraint")

unfoldable pub insert_row : UserRow → Table → Table
insert_row new_row [] = new_row ∷ []
insert_row new_row (row ∷ table) =
    let rest = insert_row new_row table in
    if ltb new_row.id row.id then new_row ∷ row ∷ table else row ∷ rest

-- `fresh` is what uuidv7() returns, `now` what NOW() does.
unfoldable pub create_user : ℕ → ℕ → Str → Str → Str → Table → Answer UserRow × Table
unfolding any_row insert_row
create_user fresh now email password_hash name table =
    let row : UserRow = record {
      id = fresh;
      email = email;
      password_hash = password_hash;
      name = name;
      is_active = some true;
      created_at = some now;
      updated_at = some now;
    } in
    if any_row (λ r. str_eq r.email email || (r.id == fresh)) table
    then (failed unique_violation, table)
    else (answer row, insert_row row table)

-- UPDATE ... SET f WHERE p
unfoldable pub update_rows : (UserRow → Bool) → (UserRow → UserRow) → Table → Table
update_rows p f [] = []
update_rows p f (row ∷ table) = (if p row then f row else row) ∷ update_rows p f table

-- COALESCE(NULLIF(new, ''), old)
unfoldable pub or_keep : Str → Str → Str
or_keep new old = if str_eq new (lit "") then old else new

unfoldable pub update_user : ℕ → ℕ → Str → Str → Table → Answer UserRow × Table
unfolding any_row update_rows find_row or_keep
update_user now id name email table =
    let set : UserRow → UserRow = λ row. record row {
      name = or_keep name row.name;
      email = or_keep email row.email;
      updated_at = some now;
    } in
    elim (find_row (λ row. row.id == id) table) [
      | failed e ↦ (failed e, table)
      | answer row ↦
          if any_row (λ r. not (r.id == id) && str_eq r.email (or_keep email row.email)) table
          then (failed unique_violation, table)
          else (answer (set row), update_rows (λ r. r.id == id) set table)
    ]

unfoldable pub update_password : ℕ → ℕ → Str → Table → Table
unfolding update_rows active_is
update_password now id password_hash =
    update_rows (λ row. (row.id == id) && active_is true row)
      (λ row. record row { password_hash = password_hash; updated_at = some now })

-- ActivateUser, DeactivateUser and DeleteUser; the last two are the same statement
unfoldable pub set_active : Bool → ℕ → ℕ → Table → Table
unfolding update_rows
set_active b now id =
    update_rows (λ row. row.id == id)
      (λ row. record row { is_active = some b; updated_at = some now })
