-- ===== src/Cursor.antt =====
-- internal/shared/domain/cursor.go: cursors and the pages that list endpoints return. JSON and
-- base64 are the standard library's: `Codec` is the pair of them at the type Cursor. The field
-- LastValue is never set by the repository and is left out. Encode fails only where json.Marshal
-- does, and gives "" then. A slice expression out of range panics: the page functions return
-- `none` there.
pub mod Pages
pub mod Tokens
pub mod Tests
use mathlib.Core.Option
use goscratch.Base.{
  ℕ, suc, ◌-◌, Bool, true, false, ◌&&◌, Option, none, some, List, [], ◌∷◌, if◌then◌else◌, ltb, Str,
  lit, str_eq, length, take, drop, head?, last?,
}
use goscratch.Base.Int.{ℤ, pos, negsuc, ltb_ℤ, leb_ℤ}
use goscratch.Apperr.{GoError, wrapped, Result, ok, err}

abbrev pub direction_next : Str
direction_next = lit "next"

abbrev pub direction_prev : Str
direction_prev = lit "prev"

pub record Cursor : Type 0 where
  pub last_id : Str
  pub direction : Str

-- json.Marshal, json.Unmarshal, base64.URLEncoding.EncodeToString and DecodeString
pub record Codec : Type 0 where
  pub marshal : Cursor → Option Str
  pub unmarshal : Str → Result Cursor
  pub to_base64 : Str → Str
  pub of_base64 : Str → Result Str

unfoldable pub encode : Codec → Cursor → Str
encode codec c =
    if str_eq c.last_id []
    then []
    else elim (codec.marshal c) [ none ↦ [] | some json ↦ codec.to_base64 json ]

-- `ok none` is the result (nil, nil).
unfoldable pub decode_cursor : Codec → Str → Result (Option Cursor)
decode_cursor codec encoded =
    if str_eq encoded [] then ok none else elim (codec.of_base64 encoded) [
      | err e ↦ err (wrapped (lit "invalid cursor format") e)
      | ok json ↦ elim (codec.unmarshal json) [
        | err e ↦ err (wrapped (lit "invalid cursor data") e)
        | ok c ↦ ok (some c)
      ]
    ]

pub record PaginationMeta : Type 0 where
  pub next_cursor : Option Str
  pub prev_cursor : Option Str
  pub has_more : Bool
  pub has_prev : Bool
  pub total : Option ℕ

pub record CursorPage {ℓ} (T : Type ℓ) : Type ℓ where
  pub items : List T
  pub meta : PaginationMeta

abbrev pub default_limit : ℤ
default_limit = pos 20

abbrev pub max_limit : ℤ
max_limit = pos 100

unfoldable pub normalize_limit : ℤ → ℤ
normalize_limit limit =
    if leb_ℤ limit (pos 0)
    then default_limit
    else if ltb_ℤ max_limit limit
    then max_limit
    else limit

module _ {ℓ} {T : Type ℓ} where
  -- len(data) > limit
  unfoldable pub exceeds : List T → ℤ → Bool
  exceeds data' limit = ltb_ℤ limit (pos (length data'))

  -- data[:limit], which panics below 0
  unfoldable pub slice_to : ℤ → List T → Option (List T)
  slice_to (pos n) data' = if ltb (length data') n then none else some (take n data')
  slice_to (negsuc n) data' = none

  -- the cursor of an item, encoded; cursorFn may return nil
  unfoldable pub token_of : Codec → (T → Option Cursor) → Str → Option T → Option Str
  token_of codec cursor_fn direction none = none
  token_of codec cursor_fn direction (some item) = elim (cursor_fn item) [
    | none ↦ none
    | some c ↦ some (encode codec (record c { direction = direction }))
  ]

  -- the cursors of a page, and the page
  unfoldable pub page_of : Codec → (T → Option Cursor) → Bool → Bool → List T → CursorPage T
  page_of codec cursor_fn has_more has_prev items = record {
    items = items;
    meta = record {
      next_cursor =
          if has_more then token_of codec cursor_fn direction_next (last? items) else none;
      prev_cursor =
          if has_prev then token_of codec cursor_fn direction_prev (head? items) else none;
      has_more = has_more;
      has_prev = has_prev;
      total = none;
    };
  }

  unfoldable pub new_cursor_page : Codec → List T → ℤ → (T → Option Cursor) → Option (CursorPage T)
  new_cursor_page codec data' limit cursor_fn =
      let has_more = exceeds data' limit in
      Option.map (page_of codec cursor_fn has_more false)
        (if has_more then slice_to limit data' else some data')

  -- the items that stay, forward or backward
  unfoldable pub trim : Bool → List T → ℤ → Option (List T)
  unfolding exceeds slice_to
  trim is_backward data' limit =
      if exceeds data' limit
      then (if is_backward then some (drop 1 data') else slice_to limit data')
      else some data'

  unfoldable pub new_bidirectional_page :
      Codec → List T → ℤ → Str → Bool → (T → Option Cursor) → Option (CursorPage T)
  unfolding trim page_of
  new_bidirectional_page codec data' limit direction has_cursor cursor_fn =
      let has_extra = exceeds data' limit in
      let is_backward = str_eq direction direction_prev in
      let has_more = if is_backward then has_cursor else has_extra in
      let has_prev = if is_backward then has_extra else has_cursor in
      Option.map (page_of codec cursor_fn has_more has_prev) (trim is_backward data' limit)

  unfoldable pub with_total : CursorPage T → ℕ → CursorPage T
  with_total p total = record p { meta = record p.meta { total = some total } }
