-- ===== src/UserStore/Tests.antt =====
-- A database of three users, one of whom is not active.
use goscratch.Base.{
  ℕ, zero, ◌≡◌, ◌≢◌, refl, Bool, true, false, Option, none, some, [], ◌∷◌, filter_by, suc, length,
  arith, Str, lit, str_eq,
}
use goscratch.Base.Int.{pos}
use goscratch.Cursor.Tokens.{is_ascii}
use goscratch.Cursor.Tests.{codec, codec-IsLossless}
use goscratch.User.{ListUsersRequest, change_password}
use goscratch.User.Tests.{crypto, format_time}
use goscratch.UserQueries
use goscratch.UserQueries.{UserRow, Table}
use goscratch.UserStore.{Db, pg_repo}
use goscratch.UserStore.Order.{Sorted}
use goscratch.UserStore.Walk.{IsUuid, walk, responses, wanted, walk_visits_all}
use goscratch.UserStore.Inactive.{change_password-inactive}

-- the UUID n is the text of n + 1 letters
unfoldable parse_letters : Str → Option ℕ
parse_letters [] = none
parse_letters (c ∷ s) = some (length s)

unfoldable show_letters : ℕ → Str
show_letters zero = b'u' ∷ []
show_letters (suc n) = b'u' ∷ show_letters n

parse-show_letters : (n : ℕ) → parse_letters (show_letters n) ≡ some n
unfolding parse_letters show_letters
parse-show_letters zero = refl
parse-show_letters (suc n) = ground (arith, parse-show_letters n)

letters_nonempty : (n : ℕ) → show_letters n ≢ []
unfolding show_letters
letters_nonempty zero h = ground arith
letters_nonempty (suc n) h = ground arith

show_letters-ascii : (n : ℕ) → is_ascii (show_letters n) ≡ true
unfolding show_letters is_ascii
show_letters-ascii zero = refl
show_letters-ascii (suc n) = show_letters-ascii n

abbrev db : Db
db = record {
  parse_uuid = parse_letters;
  show_uuid = show_letters;
  ilike = λ text pattern. true;
  outage = λ query. none;
  fresh = 9;
  now = 100;
}

db-IsUuid : IsUuid db
db-IsUuid = record {
  parse-show = parse-show_letters;
  show_nonempty = λ n. letters_nonempty n;
  show_ascii = show_letters-ascii;
}

abbrev row : ℕ → Bool → UserRow
row n is_active = record {
  id = n;
  email = n ∷ [];
  password_hash = lit "secret";
  name = n ∷ [];
  is_active = some is_active;
  created_at = some 1;
  updated_at = none;
}

abbrev table : Table
table = row 1 true ∷ row 4 false ∷ row 7 true ∷ []

table-Sorted : Sorted table
table-Sorted = ((omega arith, (omega arith, tt)), ((omega arith, tt), (tt, tt)))

-- pages of one user
abbrev request : ListUsersRequest
request = record {
  cursor = lit "";
  limit = pos 1;
  search = record { set = false; val = lit "" };
  email = record { set = false; val = lit "" };
  is_active = record { set = true; val = true };
}

walk_visits_all_example :
    walk db format_time codec (suc (length table)) request table
    ≡ some (responses db format_time codec (filter_by (wanted db format_time codec request) table))
walk_visits_all_example =
    walk_visits_all db format_time codec request table db-IsUuid codec-IsLossless refl refl
      table-Sorted

change_password-inactive_example :
    change_password format_time
      (pg_repo db)
      crypto
      (some (λ id n. (none, suc n)))
      (lit "uuuuu")
      (lit "secret")
      (lit "changed")
      table
      0
    ≡ ((none, table), 1)
unfolding lit parse_letters UserQueries.get_user_by_id UserQueries.active_is str_eq
change_password-inactive_example =
    change_password-inactive db format_time crypto (λ id n. (none, suc n)) (lit "uuuuu")
      (lit "secret") (lit "changed") (lit "changed") 4 (row 4 false) table 0 table-Sorted refl refl
      refl refl refl refl refl refl
