-- ===== src/Cursor/Pages.antt =====
-- The pages: what they hold of the rows that the repository fetched with one row to spare.
use mathlib.Core.List.{append-nil}
use goscratch.Base.{
  ℕ, zero, suc, ◌+◌, ◌≤◌, ◌<◌, ◌≡◌, inl, inr, refl, sym, Bool, true, false, Option, none, some,
  List, [], ◌++◌, arith, if◌then◌else◌, ltb, Str, str_eq, Bool-cases, length, take, drop, head?,
  last?, length-take, take-append-drop, length-drop, take-short,
}
use goscratch.Base.Int.{ℤ, pos, negsuc}
use goscratch.Cursor.{
  Cursor, Codec, CursorPage, page_of, normalize_limit, new_cursor_page, new_bidirectional_page,
  exceeds, slice_to, trim, token_of, direction_prev, direction_next,
}

-- A normalised limit is between 1 and 100, and a limit that is already there is kept.
pub normalize_limit_bounds :
    (limit : ℤ)
    → (n : ℕ) × (normalize_limit limit ≡ pos n)
      × (1 ≤ n)
      × (n ≤ 100)
      × ((m : ℕ) → limit ≡ pos m → 1 ≤ m → m ≤ 100 → n ≡ m)
unfolding normalize_limit
normalize_limit_bounds (negsuc k) =
    (20, ground arith, omega arith, omega arith, λ m e. ground arith)
normalize_limit_bounds (pos zero) =
    (20, ground arith, omega arith, omega arith, λ m e. ground arith)
normalize_limit_bounds (pos (suc k)) = (
  (if ltb 100 (suc k) then 100 else suc k),
  ground arith,
  ground arith,
  ground arith,
  λ m e. ground arith,
)

module _ {ℓ} {T : Type ℓ} (codec : Codec) (cursor_fn : T → Option Cursor) where
  -- what a page keeps of the fetched rows: all but at most one, which is the extra row
  pub record IsWindow (rows : List T) (n : ℕ) (backward has_cursor : Bool) (p : CursorPage T)
      : Type ℓ where
    pub extra : List T
    pub rows_split : rows ≡ (if backward then extra ++ p.items else p.items ++ extra)
    pub bounded : length p.items ≤ n
    pub one_extra : length extra ≤ 1
    pub more : p.meta.has_more ≡ (if backward then has_cursor else ltb 0 (length extra))
    pub prev : p.meta.has_prev ≡ (if backward then ltb 0 (length extra) else has_cursor)
    pub next_token : p.meta.next_cursor ≡ (
        if p.meta.has_more then token_of codec cursor_fn direction_next (last? p.items) else none)
    pub prev_token : p.meta.prev_cursor ≡ (
        if p.meta.has_prev then token_of codec cursor_fn direction_prev (head? p.items) else none)

  window_of :
      (rows items extra : List T) (n : ℕ) (backward has_cursor has_extra : Bool)
      → rows ≡ (if backward then extra ++ items else items ++ extra)
      → length items ≤ n
      → length extra ≤ 1
      → has_extra ≡ ltb 0 (length extra)
      → IsWindow rows n backward has_cursor (
          page_of codec cursor_fn
            (if backward then has_cursor else has_extra)
            (if backward then has_extra else has_cursor)
            items)
  unfolding page_of
  window_of rows items extra n true has_cursor has_extra split bound one flag = record {
    extra = extra;
    rows_split = split;
    bounded = bound;
    one_extra = one;
    more = refl;
    prev = flag;
    next_token = refl;
    prev_token = refl;
  }
  window_of rows items extra n false has_cursor has_extra split bound one flag = record {
    extra = extra;
    rows_split = split;
    bounded = bound;
    one_extra = one;
    more = flag;
    prev = refl;
    next_token = refl;
    prev_token = refl;
  }

  -- For a positive limit n and at most n + 1 rows a bidirectional page is built, in either
  -- direction: its items are the rows but for the one row beyond n, which is cut off at the end
  -- going forward and at the beginning going backward; there are at most n of them; has_more and
  -- has_prev say whether the extra row was there on the side of travel, and whether a cursor was
  -- given on the other side; and the tokens are those of the last and the first item where the
  -- flags are set.
  pub bidirectional_page_window :
      (rows : List T) (n : ℕ) (direction : Str) (has_cursor : Bool)
      → 0 < n
      → length rows ≤ n + 1
      → (p : CursorPage T) × (new_bidirectional_page codec rows
            (pos n)
            direction
            has_cursor
            cursor_fn
          ≡ some p)
        × IsWindow rows n (str_eq direction direction_prev) has_cursor p
  unfolding new_bidirectional_page
  bidirectional_page_window rows n direction has_cursor positive fetched =
      elim (Bool-cases (str_eq direction direction_prev)) [
        | inl backward ↦ elim (Bool-cases (ltb n (length rows))) [
          | inl more ↦ (
            page_of codec cursor_fn has_cursor true (drop 1 rows),
            ground arith,
            rw backward (
                window_of rows (drop 1 rows) (take 1 rows) n true has_cursor true
                  (sym (take-append-drop 1 rows)) (omega (arith, length-drop 1 rows))
                  (omega (arith, length-take 1 rows)) (ground (arith, length-take 1 rows))),
          )
          | inr all ↦ (
            page_of codec cursor_fn has_cursor false rows,
            ground arith,
            rw backward (
                window_of rows rows [] n true has_cursor false refl (ground arith) (omega arith)
                  refl),
          )
        ]
        | inr forward ↦ elim (Bool-cases (ltb n (length rows))) [
          | inl more ↦ (
            page_of codec cursor_fn true has_cursor (take n rows),
            ground arith,
            rw forward (
                window_of rows (take n rows) (drop n rows) n false has_cursor true
                  (sym (take-append-drop n rows)) (omega (arith, length-take n rows))
                  (omega (arith, length-drop n rows)) (ground (arith, length-drop n rows))),
          )
          | inr all ↦ (
            page_of codec cursor_fn false has_cursor rows,
            ground arith,
            rw forward (
                window_of rows rows [] n false has_cursor false (sym (append-nil rows))
                  (ground arith) (omega arith) refl),
          )
        ]
      ]

trim_total {ℓ} :
    {T : Type ℓ} (backward : Bool) (rows : List T) (n : ℕ)
    → (items : List T) × (trim backward rows (pos n) ≡ some items)
unfolding trim
trim_total backward rows n = (
  (if ltb n (length rows) then (if backward then drop 1 rows else take n rows) else rows),
  ground arith,
)

slice_total {ℓ} :
    {T : Type ℓ} (rows : List T) (n : ℕ)
    → (items : List T) × ((if exceeds rows (pos n) then slice_to (pos n) rows else some rows)
        ≡ some items)
unfolding exceeds slice_to
slice_total rows n = ((if ltb n (length rows) then take n rows else rows), ground arith)

-- For any limit that the request gives, and any rows: once normalised, the limit makes neither
-- page constructor panic.
pub normalized_pages_exist {ℓ} :
    {T : Type ℓ} (codec : Codec) (cursor_fn : T → Option Cursor) (rows : List T) (limit : ℤ)
    (direction : Str) (has_cursor : Bool)
    → ((p : CursorPage T) × (new_cursor_page codec rows (normalize_limit limit) cursor_fn ≡ some p))
      × ((p : CursorPage T) × (new_bidirectional_page codec rows
              (normalize_limit limit)
              direction
              has_cursor
              cursor_fn
            ≡ some p))
unfolding new_cursor_page new_bidirectional_page
normalized_pages_exist codec cursor_fn rows limit direction has_cursor =
    let (n, e, _, _, _) = normalize_limit_bounds limit in
    let (kept, sliced) = slice_total rows n in
    let (items, trimmed) = trim_total (str_eq direction direction_prev) rows n in
    rw e (
      (page_of codec cursor_fn (exceeds rows (pos n)) false kept, rw sliced),
      (
        page_of codec cursor_fn
            (if str_eq direction direction_prev then has_cursor else exceeds rows (pos n))
            (if str_eq direction direction_prev then exceeds rows (pos n) else has_cursor) items,
        rw trimmed,
      ),
    )

-- Going forward, a page holds the first n rows, and has more when there is a further row.
pub forward_page :
    {T : Type 0} (codec : Codec) (cursor_fn : T → Option Cursor) (rows : List T) (n : ℕ)
    (direction : Str) (has_cursor : Bool)
    → str_eq direction direction_prev ≡ false
    → new_bidirectional_page codec rows (pos n) direction has_cursor cursor_fn
      ≡ some (page_of codec cursor_fn (ltb n (length rows)) has_cursor (take n rows))
unfolding new_bidirectional_page trim exceeds slice_to
forward_page codec cursor_fn rows n direction has_cursor forward =
    elim (Bool-cases (ltb n (length rows))) [
      | inl more ↦ ground arith
      | inr all ↦ ground (arith, take-short n rows)
    ]
