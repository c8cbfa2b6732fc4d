-- ===== src/UserStore/Walk.antt =====
-- A client that follows the next cursors of the list of users, from the first page to the last.
use mathlib.Core.Option
use mathlib.Core.List.{map-append}
use goscratch.Base.{
  ℕ, zero, suc, ◌+◌, ◌≤◌, ◌<◌, ◌≡◌, ◌≢◌, refl, ap, sym, ◌∙◌, Bool, true, false, ◌&&◌, Option, none,
  some, List, [], ◌∷◌, ◌++◌, map, arith, ltb, length, take, drop, last?, filter_by, Str, lit,
  str_eq, str_eq_iff, Bool-cases, inl, inr, length-take, length-drop, length-map, length-filter_by,
  take-append-drop, take-map, take-take, take-short, last?-map,
}
use goscratch.Base.Int.{pos}
use goscratch.Apperr.{ok, err}
use goscratch.Cursor.{
  Cursor, Codec, page_of, token_of, decode_cursor, normalize_limit, direction_prev, direction_next,
}
use goscratch.Cursor.Pages.{forward_page, normalize_limit_bounds}
use goscratch.Cursor.Tokens.{IsLossless, is_ascii, decode_cursor-token_of}
use goscratch.User
use goscratch.User.{
  ListUsersRequest, UserResponse, request_cursor, filter_of, cursor_of, to_user_response,
}
use goscratch.UserQueries.{UserRow, Table, row_matches, after_cursor, list_users}
use goscratch.UserStore.{
  Db, pg_repo, list, list_params, to_domain, nullable_uuid, normalize_filter_limit,
  normalize_filter, row_count, ask,
}
use goscratch.UserStore.Order.{Sorted, rows_after_nth}

-- What uuid.Parse promises of the texts that String makes, which are of ASCII bytes.
pub record IsUuid (db : Db) : Type 0 where
  pub parse-show : (n : ℕ) → db.parse_uuid (db.show_uuid n) ≡ some n
  pub show_nonempty : (n : ℕ) → db.show_uuid n ≢ []
  pub show_ascii : (n : ℕ) → is_ascii (db.show_uuid n) ≡ true

normalize_filter_limit-same : (n : ℕ) → 0 < n → n ≤ 100 → normalize_filter_limit (pos n) ≡ n
unfolding normalize_filter_limit
normalize_filter_limit-same zero h h' = absurd (omega arith)
normalize_filter_limit-same (suc n) h h' = ground arith

last_of_take :
    {A : Type 0} (n : ℕ) (xs : List A)
    → 0 < n
    → 0 < length xs
    → (x : A) × (last? (take n xs) ≡ some x)
last_of_take zero xs h h' = absurd (omega arith)
last_of_take (suc n) [] h h' = absurd (omega arith)
last_of_take (suc zero) (x ∷ xs) h h' = (x, refl)
last_of_take (suc (suc n)) (x ∷ []) h h' = (x, refl)
last_of_take (suc (suc n)) (x ∷ y ∷ xs) h h' =
    last_of_take (suc n) (y ∷ xs) (omega arith) (omega arith)

no_empty_token :
    (codec : Codec) (token : Str) (c : Cursor)
    → str_eq token (lit "") ≡ true
    → decode_cursor codec token ≢ ok (some c)
unfolding decode_cursor lit
no_empty_token codec token c empty h = ground arith

is_empty : (s : Str) → str_eq s (lit "") ≡ true → s ≡ []
unfolding lit
is_empty s h = ground (arith, str_eq_iff s [])

next_is_forward : str_eq direction_next direction_prev ≡ false
unfolding str_eq lit
next_is_forward = refl

next_is_ascii : is_ascii direction_next ≡ true
unfolding is_ascii lit
next_is_ascii = refl

first_is_forward : str_eq (lit "") direction_prev ≡ false
unfolding str_eq lit
first_is_forward = refl

module _ (db : Db) (format_time : ℕ → Str) (codec : Codec) where
  abbrev pub response : UserRow → UserResponse
  response row = to_user_response format_time (to_domain db row)

  abbrev pub responses : Table → List UserResponse
  responses rows = map (to_user_response format_time) (map (to_domain db) rows)

  -- the rows that a request asks for, on whichever page
  unfoldable pub wanted : ListUsersRequest → UserRow → Bool
  wanted req =
      row_matches db.ilike
        (list_params db (filter_of format_time (pg_repo db) req (lit "", lit "")))

  unfoldable pub rows_from : Option ℕ → ListUsersRequest → Table → List UserRow
  unfolding wanted
  rows_from k req table = filter_by (λ row. after_cursor k row && wanted req row) table

  rest_rows :
      (k : Option ℕ) (req : ListUsersRequest) (token : Str) (n : ℕ) (table : Table) (last : UserRow)
      → Sorted table
      → last? (take n (rows_from k req table)) ≡ some last
      → rows_from (some last.id) (record req { cursor = token }) table
        ≡ drop n (rows_from k req table)
  unfolding rows_from wanted list_params normalize_filter row_count filter_of row_matches
  rest_rows k req token n table last sorted found =
      rows_after_nth k (wanted req) n table last sorted found

  -- all items from the page of the request on; `none` when a page is an error or the fuel runs out
  unfoldable pub walk : ℕ → ListUsersRequest → Table → Option (List UserResponse)
  walk zero req table = none
  walk (suc fuel) req table = elim (User.list format_time (pg_repo db) codec req table) [
    | none ↦ none
    | some reply ↦ elim reply [
      | err e ↦ none
      | ok p ↦ elim p.meta.next_cursor [
        | none ↦ some p.items
        | some c ↦
            Option.map (λ rest. p.items ++ rest) (walk fuel (record req { cursor = c }) table)
      ]
    ]
  ]

  take-responses :
      (n : ℕ) (rows : Table) → take n (responses (take (suc n) rows)) ≡ responses (take n rows)
  take-responses n rows =
      take-map (to_user_response format_time) n (map (to_domain db) (take (suc n) rows))
      ∙ ap (map (to_user_response format_time)) (
          take-map (to_domain db) n (take (suc n) rows)
          ∙ ap (map (to_domain db)) (take-take n rows))

  more_rows :
      (n : ℕ) (rows : Table) → ltb n (length (responses (take (suc n) rows))) ≡ ltb n (length rows)
  more_rows n rows = ground (
    arith,
    length-map (to_user_response format_time) (map (to_domain db) (take (suc n) rows)),
    length-map (to_domain db) (take (suc n) rows),
    length-take (suc n) rows,
  )

  responses_split :
      (n : ℕ) (rows : Table) → responses (take n rows) ++ responses (drop n rows) ≡ responses rows
  responses_split n rows =
      sym (
        map-append (to_user_response format_time) (map (to_domain db) (take n rows))
          (map (to_domain db) (drop n rows)))
      ∙ ap (map (to_user_response format_time)) (
          sym (map-append (to_domain db) (take n rows) (drop n rows))
          ∙ ap (map (to_domain db)) (take-append-drop n rows))

  fetched :
      (req : ListUsersRequest) (table : Table) (n : ℕ) (k : Option ℕ) (id direction : Str)
      → normalize_filter_limit (normalize_limit req.limit) ≡ n
      → str_eq direction direction_prev ≡ false
      → nullable_uuid db id ≡ k
      → db.outage (lit "ListUsers") ≡ none
      → list db (filter_of format_time (pg_repo db) req (id, direction)) table
        ≡ ok (map (to_domain db) (take (suc n) (rows_from k req table)))
  unfolding list list_params normalize_filter row_count filter_of list_users ask rows_from wanted
      row_matches
  fetched req table n k id direction limit forward at up =
      let one_more : n + 1 ≡ suc n = omega arith in rw (forward, up, at, limit, one_more, list, ask)

  -- the page of a request whose cursor is read as the id k (or none), going forward
  page_from :
      (req : ListUsersRequest) (table : Table) (n : ℕ) (k : Option ℕ) (id direction : Str)
      (has_cursor : Bool)
      → normalize_limit req.limit ≡ pos n
      → 0 < n
      → n ≤ 100
      → request_cursor format_time (pg_repo db) codec req.cursor ≡ ok ((id, direction), has_cursor)
      → str_eq direction direction_prev ≡ false
      → nullable_uuid db id ≡ k
      → db.outage (lit "ListUsers") ≡ none
      → User.list format_time (pg_repo db) codec req table
        ≡ some (
            ok (
              page_of codec
                (cursor_of format_time (pg_repo db))
                (ltb n (length (rows_from k req table)))
                has_cursor
                (responses (take n (rows_from k req table)))))
  unfolding User.list
  page_from req table n k id direction has_cursor limit positive small given forward at up =
      let rows = rows_from k req table in
      let got = responses (take (suc n) rows) in
      let same_limit : normalize_filter_limit (normalize_limit req.limit) ≡ n =
        ap normalize_filter_limit limit ∙ normalize_filter_limit-same n positive small in
      let kept : take n got ≡ responses (take n rows) = take-responses n rows in
      let more : ltb n (length got) ≡ ltb n (length rows) = more_rows n rows in
      rw (
        given,
        fetched req table n k id direction same_limit forward at up,
        limit,
        forward_page codec (cursor_of format_time (pg_repo db)) got n direction has_cursor forward,
        kept,
        more,
        User.list,
      )

  module _ (U : IsUuid db) (L : IsLossless codec) where
    -- The token of the last item of a page is read as that item's id, going forward.
    next_token :
        (row : UserRow)
        → (token : Str) × (token_of codec
              (cursor_of format_time (pg_repo db))
              direction_next
              (some (response row))
            ≡ some token)
          × (request_cursor format_time (pg_repo db) codec token
              ≡ ok ((db.show_uuid row.id, direction_next), true))
    unfolding request_cursor to_user_response to_domain
    next_token row =
        let c : Cursor = record { last_id = db.show_uuid row.id; direction = lit "" } in
        let (token, made, read) =
          decode_cursor-token_of codec L (cursor_of format_time (pg_repo db)) direction_next
            (response row) c refl (U.show_nonempty row.id) (U.show_ascii row.id) next_is_ascii in
        elim (Bool-cases (str_eq token (lit ""))) [
          | inl empty ↦
              absurd
                (no_empty_token codec token (record c { direction = direction_next }) empty read)
          | inr given ↦ (token, made, rw (given, read, request_cursor))
        ]

    read_back : (row : UserRow) → nullable_uuid db (db.show_uuid row.id) ≡ some row.id
    unfolding nullable_uuid
    read_back row =
        ground (arith, U.parse-show row.id, U.show_nonempty row.id, is_empty (db.show_uuid row.id))

    walk_from :
        (fuel : ℕ) (req : ListUsersRequest) (table : Table) (n : ℕ) (k : Option ℕ)
        (id direction : Str) (has_cursor : Bool)
        → normalize_limit req.limit ≡ pos n
        → 0 < n
        → n ≤ 100
        → request_cursor format_time (pg_repo db) codec req.cursor
          ≡ ok ((id, direction), has_cursor)
        → str_eq direction direction_prev ≡ false
        → nullable_uuid db id ≡ k
        → db.outage (lit "ListUsers") ≡ none
        → Sorted table
        → length (rows_from k req table) < fuel
        → walk fuel req table ≡ some (responses (rows_from k req table))
    unfolding walk page_of
    walk_from zero req table n k id direction hc limit positive small given forward at up sorted
          enough =
        absurd (omega arith)
    walk_from (suc fuel) req table n k id direction hc limit positive small given forward at up
          sorted enough =
        let rows = rows_from k req table in
        let page =
          page_from req table n k id direction hc limit positive small given forward at up in
        elim (Bool-cases (ltb n (length rows))) [
          | inr all ↦ rw (page, all, walk, page_of, take-short n rows (ground arith))
          | inl more ↦
              let (last, found) = last_of_take n rows positive (ground arith) in
              let (token, made, read) = next_token last in
              let last_item : last? (responses (take n rows)) ≡ some (response last) =
                last?-map (to_user_response format_time) (map (to_domain db) (take n rows))
                ∙ ap (Option.map (to_user_response format_time)) (
                    last?-map (to_domain db) (take n rows)
                    ∙ ap (Option.map (to_domain db)) found) in
              let joined : responses (take n rows) ++ responses (drop n rows) ≡ responses rows =
                responses_split n rows in
              let rest : rows_from (some last.id) (record req { cursor = token }) table
                  ≡ drop n rows =
                rest_rows k req token n table last sorted found in
              let onward =
                walk_from fuel (record req { cursor = token }) table n (some last.id)
                  (db.show_uuid last.id) direction_next true limit positive small read
                  next_is_forward (read_back last) up sorted (ground (arith, length-drop n rows)) in
              rw (page, more, walk, page_of, last_item, made, onward, rest, joined)
        ]

  -- For a table sorted by id, uuid texts of ASCII bytes that are read back, a codec that reads back
  -- the cursors of ASCII texts, and a working ListUsers query: a client that asks for the first
  -- page (no cursor) and follows the next cursors ends after at most one request more than there
  -- are rows, without an error, and has then seen every row that the filters match, once each, in
  -- the order of the ids, whatever the page size. (The filter's default order, created_at desc, is
  -- not that of the query, which no sort field of the filter reaches.)
  pub walk_visits_all :
      (req : ListUsersRequest) (table : Table)
      → IsUuid db
      → IsLossless codec
      → req.cursor ≡ lit ""
      → db.outage (lit "ListUsers") ≡ none
      → Sorted table
      → walk (suc (length table)) req table ≡ some (responses (filter_by (wanted req) table))
  unfolding rows_from after_cursor request_cursor nullable_uuid str_eq lit
  walk_visits_all req table U L first up sorted =
      let (n, limit, positive, small, _) = normalize_limit_bounds req.limit in
      walk_from U L (suc (length table)) req table n none (lit "") (lit "") false limit
        (omega arith) small (rw first refl) first_is_forward refl up sorted
        (ground (arith, length-filter_by (wanted req) table))
