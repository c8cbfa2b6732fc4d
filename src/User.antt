-- ===== src/User.antt =====
-- internal/module/user/usecase/user_usecase.go: the use cases on users, with the transactions of
-- internal/platform/database/postgres.go. The repository and the transactions of the database,
-- bcrypt and the formatting of times are parameters. The parsing of a user id is the repository's.
pub mod Passwords
pub mod Pages
pub mod Tests
use mathlib.Core.Option
use goscratch.Base.{
  ℕ, Bool, true, false, not, Option, none, some, List, [], ◌∷◌, ◌++◌, map, if◌then◌else◌, Str, lit,
  str_eq,
}
use goscratch.Base.Int.{ℤ}
use goscratch.Apperr.{
  GoError, app, wrapped, Result, ok, err, bad_requestf, conflictf, internalf, err_unauthorized,
  with_message,
}
use goscratch.Cursor.{
  Cursor, Codec, CursorPage, decode_cursor, normalize_limit, new_bidirectional_page,
}
use goscratch.Auth.{User}

-- pkg/types/optional.go: a value that may not have been set
pub record Opt (A : Type 0) : Type 0 where
  pub set : Bool
  pub val : A

pub record UserFilter : Type 0 where
  pub cursor : Str
  pub limit : ℤ
  pub direction : Str
  pub search : Opt Str
  pub email : Opt Str
  pub is_active : Opt Bool
  pub sort_by : Str
  pub sort_order : Str

pub record ListUsersRequest : Type 0 where
  pub cursor : Str
  pub limit : ℤ
  pub search : Opt Str
  pub email : Opt Str
  pub is_active : Opt Bool

pub record UserResponse : Type 0 where
  pub id : Str
  pub email : Str
  pub name : Str
  pub is_active : Bool
  pub created_at : Str
  pub updated_at : Str

-- userRepo
pub record Repo : Type 1 where
  pub Rows : Type 0
  pub get_by_id : Str → Rows → Result User
  pub list : UserFilter → Rows → Result (List User)
  pub exists_by_email : Str → Rows → Result Bool
  pub create : Str → Str → Str → Rows → Result User × Rows
  pub update : Str → Str → Str → Rows → Result User × Rows
  pub update_password : Str → Str → Rows → Option GoError × Rows
  pub delete : Str → Rows → Option GoError × Rows
  pub activate : Str → Rows → Option GoError × Rows
  pub deactivate : Str → Rows → Option GoError × Rows

-- `generate_hash` is bcrypt.GenerateFromPassword at the default cost.
pub record Crypto : Type 0 where
  pub generate_hash : Str → Result Str
  pub compare_hash : Str → Str → Option GoError

-- What Begin, Rollback and Commit return and make of the database, as the connection sees it.
pub record Transaction (Rows : Type 0) : Type 0 where
  pub begin : Rows → Option GoError × Rows
  pub rollback : Rows → Option GoError × Rows
  pub commit : Rows → Option GoError × Rows

-- WithTx, of a function that also sets a value; `none` is a panic, which goes on after the
-- rollback. The text of a rollback error at the end of the message is left out.
unfoldable pub with_tx :
    {Rows A : Type 0}
    → Transaction Rows
    → (Rows → Option (Result A) × Rows)
    → Rows
    → Option (Result A) × Rows
with_tx t body rows =
    let (unbegun, opened) = t.begin rows in
    elim unbegun [
      | some e ↦ (some (err (wrapped (lit "failed to begin transaction") e)), opened)
      | none ↦
          let (outcome, after) = body opened in
          elim outcome [
            | none ↦ (none, (t.rollback after).1)
            | some result ↦ elim result [
              | err e ↦
                  let (failure, back) = t.rollback after in
                  elim failure [
                    | none ↦ (some (err e), back)
                    | some _ ↦ (some (err (wrapped (lit "tx error") e)), back)
                  ]
              | ok a ↦
                  let (failure, done) = t.commit after in
                  elim failure [
                    | some e ↦ (some (err (wrapped (lit "failed to commit transaction") e)), done)
                    | none ↦ (some (ok a), done)
                  ]
            ]
          ]
    ]

module _ (format_time : ℕ → Str) where
  unfoldable pub to_user_response : User → UserResponse
  to_user_response user = record {
    id = user.id;
    email = user.email;
    name = user.name;
    is_active = user.is_active;
    created_at = format_time user.created_at;
    updated_at = format_time user.updated_at;
  }

  module _ (repo : Repo) where
    open repo use {Rows}

    unfoldable pub respond : Result User → Result UserResponse
    unfolding to_user_response
    respond (ok user) = ok (to_user_response user)
    respond (err e) = err e

    unfoldable pub get_by_id : Str → Rows → Result UserResponse
    unfolding respond
    get_by_id id rows = respond (repo.get_by_id id rows)

    -- the cursor of the request: its id and direction, and whether there is one
    unfoldable pub request_cursor : Codec → Str → Result ((Str × Str) × Bool)
    unfolding decode_cursor
    request_cursor codec text =
        if str_eq text (lit "")
        then ok ((lit "", lit ""), false)
        else elim (decode_cursor codec text) [
          | err e ↦ err (app (bad_requestf (lit "invalid cursor")))
          | ok found ↦ elim found [
            | none ↦ ok ((lit "", lit ""), false)
            | some c ↦ ok ((c.last_id, c.direction), true)
          ]
        ]

    unfoldable pub filter_of : ListUsersRequest → (Str × Str) → UserFilter
    unfolding normalize_limit
    filter_of req cursor = record {
      cursor = cursor.0;
      limit = normalize_limit req.limit;
      direction = cursor.1;
      search = req.search;
      email = req.email;
      is_active = req.is_active;
      sort_by = lit "";
      sort_order = lit "";
    }

    abbrev pub cursor_of : UserResponse → Option Cursor
    cursor_of u = some (record { last_id = u.id; direction = lit "" })

    -- List; `none` is a panic of the page constructor
    unfoldable pub list :
        Codec → ListUsersRequest → Rows → Option (Result (CursorPage UserResponse))
    unfolding request_cursor filter_of to_user_response new_bidirectional_page
    list codec req rows = elim (request_cursor codec req.cursor) [
      | err e ↦ some (err e)
      | ok (cursor, has_cursor) ↦ elim (repo.list (filter_of req cursor) rows) [
        | err e ↦ some (err e)
        | ok users ↦ Option.map ok (
            new_bidirectional_page codec (map to_user_response users) (normalize_limit req.limit)
              cursor.1 has_cursor cursor_of)
      ]
    ]

    -- the function that Create runs in its transaction
    unfoldable pub create_in_tx : Str → Str → Str → Rows → Result User × Rows
    create_in_tx email hash name rows = elim (repo.exists_by_email email rows) [
      | err e ↦ (err e, rows)
      | ok exists ↦
          if exists
          then (
            err (app (conflictf (lit "user with email " ++ email ++ lit " already exists"))),
            rows,
          )
          else repo.create email hash name rows
    ]

    -- Create; `none` is a panic
    unfoldable pub create :
        Crypto → Transaction Rows → Str → Str → Str → Rows → Option (Result UserResponse) × Rows
    unfolding with_tx create_in_tx respond
    create crypto t email password name rows = elim (crypto.generate_hash password) [
      | err e ↦ (some (err (app (internalf (lit "failed to hash password")))), rows)
      | ok hash ↦
          let (outcome, rows') =
            with_tx t
              (λ opened.
                let (result, after) = create_in_tx email hash name opened in (some result, after))
              rows in
          (Option.map respond outcome, rows')
    ]

    unfoldable pub update : Str → Str → Str → Rows → Result UserResponse × Rows
    unfolding respond
    update id name email rows =
        let (result, rows') = repo.update id name email rows in (respond result, rows')

    -- ChangePassword; the sessions are another state, which the revoker acts on, if there is one
    unfoldable pub change_password :
        {S : Type 0}
        → Crypto
        → Option (Str → S → Option GoError × S)
        → Str
        → Str
        → Str
        → Rows
        → S
        → (Option GoError × Rows) × S
    change_password crypto revoker id current new rows s = elim (repo.get_by_id id rows) [
      | err e ↦ ((some e, rows), s)
      | ok user ↦ elim (crypto.compare_hash user.password_hash current) [
        | some _ ↦ (
          (some (app (with_message err_unauthorized (lit "Current password is incorrect"))), rows),
          s,
        )
        | none ↦ elim (crypto.generate_hash new) [
          | err _ ↦ ((some (app (internalf (lit "failed to hash password"))), rows), s)
          | ok hash ↦
              let (failure, rows') = repo.update_password id hash rows in
              elim failure [
                | some e ↦ ((some e, rows'), s)
                | none ↦ elim revoker [
                  | none ↦ ((none, rows'), s)
                  | some revoke ↦
                      let (unrevoked, s') = revoke id s in
                      elim unrevoked [
                        | none ↦ ((none, rows'), s')
                        | some e ↦ (
                          (
                            some (
                                wrapped (lit "password updated but refresh token revocation failed")
                                  e),
                            rows',
                          ),
                          s',
                        )
                      ]
                ]
              ]
        ]
      ]
    ]

    unfoldable pub delete : Str → Rows → Option GoError × Rows
    delete id rows = repo.delete id rows

    unfoldable pub activate : Str → Rows → Option GoError × Rows
    activate id rows = elim (repo.get_by_id id rows) [
      | err e ↦ (some e, rows)
      | ok user ↦ if user.is_active then (none, rows) else repo.activate id rows
    ]

    unfoldable pub deactivate : Str → Rows → Option GoError × Rows
    deactivate id rows = elim (repo.get_by_id id rows) [
      | err e ↦ (some e, rows)
      | ok user ↦ if not user.is_active then (none, rows) else repo.deactivate id rows
    ]
