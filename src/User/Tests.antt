-- ===== src/User/Tests.antt =====
-- Users over one row in memory and the sessions of a cache in memory.
use goscratch.Base.{
  has_byte, ℕ, ◌≡◌, ◌≢◌, ◌⊎◌, refl, Bool, true, false, Option, none, some, [], ◌∷◌, if◌then◌else◌,
  arith, Str, lit, str_eq,
}
use goscratch.Base.Int.{pos}
use goscratch.Apperr.{GoError, plain, Result, ok, err}
use goscratch.Cursor.{Codec}
use goscratch.Auth.{User, refresh, revoke_all_for_user, tok_lookup_key, invalid_refresh_token}
use goscratch.Auth.Tests.{memory, memory-IsStore, alice, env, logged_in}
use goscratch.User.{
  Repo, Crypto, Transaction, ListUsersRequest, change_password, create, list, respond,
}
use goscratch.User.Passwords.{
  change_password_ends_sessions, create_atomic, committed, IsTransactional, IsIsolated, IsUndone,
}

abbrev pub one_row : Repo
one_row = record {
  Rows = User;
  get_by_id = λ id u. ok u;
  list = λ f u. ok (u ∷ []);
  exists_by_email = λ email u. ok (str_eq email u.email);
  create =
      λ email hash name u. (ok (record u { email = email; password_hash = hash; name = name }), u);
  update = λ id name email u. (ok u, u);
  update_password = λ id hash u. (none, record u { password_hash = hash });
  delete = λ id u. (none, u);
  activate = λ id u. (none, record u { is_active = true });
  deactivate = λ id u. (none, record u { is_active = false });
}

abbrev pub crypto : Crypto
crypto = record {
  generate_hash = λ password. ok password;
  compare_hash = λ hash password. if str_eq hash password then none else some (plain []);
}

abbrev pub format_time : ℕ → Str
format_time t = lit "2026-01-01T00:00:00Z"

abbrev codec : Codec
codec = record {
  marshal = λ c. none;
  unmarshal = λ s. err (plain []);
  to_base64 = λ s. s;
  of_base64 = λ s. ok s;
}

abbrev changed : (Option GoError × User) × memory.Store
changed =
    change_password format_time one_row crypto (some (revoke_all_for_user env memory)) (lit "a1")
      (lit "secret") (lit "changed") alice logged_in

change_password_ends_sessions_example :
    (user : User) × (hash : Str) × (one_row.get_by_id (lit "a1") alice ≡ ok user)
    × (crypto.compare_hash user.password_hash (lit "secret") ≡ none)
    × (crypto.generate_hash (lit "changed") ≡ ok hash)
    × (one_row.update_password (lit "a1") hash alice ≡ (none, changed.0.1))
    × ((token : Str)
        → memory.get (tok_lookup_key env token) logged_in ≡ ok (lit "a1")
        → refresh env memory token changed.1 ≡ (err invalid_refresh_token, changed.1))
unfolding has_byte lit change_password str_eq revoke_all_for_user
change_password_ends_sessions_example =
    change_password_ends_sessions format_time one_row crypto env memory memory-IsStore (lit "a1")
      (lit "secret") (lit "changed") alice logged_in refl refl

-- a row with a transaction: whether it is open, the row that all see, and the row of the
-- transaction
abbrev Held : Type 0
Held = Bool × (User × User)

abbrev alice_alone : Held
alice_alone = (false, (alice, alice))

unfoldable insert_row : Str → Str → Str → Held → Result User × Held
insert_row email hash name (open_now, (seen, own)) =
    let user : User = record own { email = email; password_hash = hash; name = name } in
    (ok user, (open_now, ((if open_now then seen else user), user)))

abbrev held_row : Repo
held_row = record {
  Rows = Held;
  get_by_id = λ id r. ok r.1.1;
  list = λ f r. ok (r.1.1 ∷ []);
  exists_by_email = λ email r. ok (str_eq email r.1.1.email);
  create = insert_row;
  update = λ id name email r. (ok r.1.1, r);
  update_password = λ id hash r. (none, r);
  delete = λ id r. (none, r);
  activate = λ id r. (none, r);
  deactivate = λ id r. (none, r);
}

abbrev transaction : Transaction Held
transaction = record {
  begin = λ r. (none, (true, (r.1.0, r.1.0)));
  rollback = λ r. (none, (false, (r.1.0, r.1.0)));
  commit = λ r. (none, (false, (r.1.1, r.1.1)));
}

begins : (r : Held) (e : GoError) → (transaction.begin r).0 ≢ some e
begins r e h = ground arith

abbrev transactional : IsTransactional transaction
transactional = record {
  Shared = User;
  shared = λ r. r.1.0;
  is_open = λ r. r.0;
  shared-begin = λ r. refl;
  begin-opens = λ r h. refl;
  begin-fails = λ r e h. absurd (begins r e h);
  shared-rollback = λ r. refl;
  rollback-closes = λ r h. refl;
}

isolated : IsIsolated format_time held_row crypto transaction transactional
unfolding insert_row
isolated email hash name (open_now, (seen, own)) held = rw held refl

create_atomic_example :
    let r =
      create format_time held_row crypto transaction
        (lit "bob@example.com")
        (lit "pw")
        (lit "Bob")
        alice_alone in
    let opened = (transaction.begin alice_alone).1 in
    IsUndone transaction transactional r alice_alone
    ⊎ ((user : User) × (hash : Str) × (crypto.generate_hash (lit "pw") ≡ ok hash)
        × ((transaction.begin alice_alone).0 ≡ none)
        × (held_row.exists_by_email (lit "bob@example.com") opened ≡ ok false)
        × ((held_row.create (lit "bob@example.com") hash (lit "Bob") opened).0 ≡ ok user)
        × (r ≡ (
          some (
              respond format_time held_row (
                committed user
                  (transaction.commit
                    (held_row.create (lit "bob@example.com") hash (lit "Bob") opened).1).0)),
          (transaction.commit
              (held_row.create (lit "bob@example.com") hash (lit "Bob") opened).1).1,
        )))
create_atomic_example =
    create_atomic format_time held_row crypto transaction transactional isolated
      (lit "bob@example.com") (lit "pw") (lit "Bob") alice_alone refl

abbrev request : ListUsersRequest
request = record {
  cursor = [];
  limit = pos 10;
  search = record { set = false; val = [] };
  email = record { set = false; val = [] };
  is_active = record { set = false; val = false };
}
