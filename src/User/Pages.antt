-- ===== src/User/Pages.antt =====
-- The list of users is a page of what the repository returns.
use goscratch.Base.{ℕ, ◌+◌, ◌≤◌, ◌≡◌, ◌⊎◌, Bool, true, false, none, some, lit, List, length, Str}
use goscratch.Base.Int.{pos}
use goscratch.Apperr.{GoError, app, bad_requestf, ok, err}
use goscratch.Cursor.{Cursor, Codec, decode_cursor, normalize_limit}
use goscratch.Auth.{User}
use goscratch.User.{Repo, ListUsersRequest, list, filter_of}

module _ (format_time : ℕ → Str) (repo : Repo) (codec : Codec) where
  -- the limit of a filter, as the repository sees it
  abbrev pub Fetches : repo.Rows → Type 0
  Fetches rows =
      (req : ListUsersRequest) (cursor : Str × Str) (n : ℕ) (users : List User)
      → normalize_limit req.limit ≡ pos n
      → repo.list (filter_of format_time repo req cursor) rows ≡ ok users
      → length users ≤ n + 1

  -- what a request's cursor text stands for: no cursor, or a decoded one
  abbrev pub IsCursorOf : Str → Str × Str → Bool → Type 0
  IsCursorOf text cursor has_cursor =
      ((decode_cursor codec text ≡ ok none) × (cursor ≡ (lit "", lit "")) × (has_cursor ≡ false))
      ⊎ ((c : Cursor) × (decode_cursor codec text ≡ ok (some c))
          × (cursor ≡ (c.last_id, c.direction))
          × (has_cursor ≡ true))

  -- a text that no cursor is encoded as
  abbrev pub IsInvalid : Str → GoError → Type 0
  IsInvalid text e =
      (x : GoError) × (decode_cursor codec text ≡ err x)
      × (e ≡ app (bad_requestf (lit "invalid cursor")))
