-- ===== src/UserStore/Order.antt =====
-- Rows in the order of their ids, and what a cursor cuts off them.
use goscratch.Base.{
  ℕ, zero, suc, ◌<◌, ◌≡◌, refl, sym, ◌∙◌, Bool, true, ◌&&◌, Option, none, some, [], ◌∷◌, arith,
  take, drop, last?, filter_by, All, All-filter_by, All-weaken, All-passed, filter_by-filter_by,
  filter_by-All, if_ind, last?-All, take-All,
}
use goscratch.UserQueries.{UserRow, Table, after_cursor}

-- strictly increasing ids
abbrev pub Sorted : Table → Type 0
Sorted [] = Unit
Sorted (row ∷ table) = All (λ (r : UserRow). row.id < r.id) table × Sorted table

pub filter_by-Sorted :
    (p : UserRow → Bool) (table : Table) → Sorted table → Sorted (filter_by p table)
unfolding filter_by
filter_by-Sorted p [] h = tt
filter_by-Sorted p (row ∷ table) h =
    let rest = filter_by-Sorted p table h.1 in
    if_ind Sorted (p row) (λ _. (All-filter_by (λ (r : UserRow). row.id < r.id) p table h.0, rest))
      (λ _. rest)

-- of the rows after the n-th one nothing is cut off, and all before them is
after_nth :
    (n : ℕ) (rows : Table) (last : UserRow)
    → Sorted rows
    → last? (take n rows) ≡ some last
    → filter_by (after_cursor (some last.id)) rows ≡ drop n rows
unfolding filter_by after_cursor
after_nth zero rows last h found = absurd (ground arith)
after_nth (suc n) [] last h found = absurd (ground arith)
after_nth (suc zero) (row ∷ rows) last h found = ground (
  arith,
  filter_by-All (after_cursor (some last.id)) rows (
      All-weaken (λ (r : UserRow). row.id < r.id)
        (λ (r : UserRow). after_cursor (some last.id) r ≡ true) (λ r lt. ground arith) rows h.0),
)
after_nth (suc (suc n)) (row ∷ []) last h found = ground arith
after_nth (suc (suc n)) (row ∷ next ∷ rows) last h found =
    let later : row.id < last.id =
      last?-All (λ (r : UserRow). row.id < r.id) (take (suc n) (next ∷ rows)) last
        (take-All (λ (r : UserRow). row.id < r.id) (suc n) (next ∷ rows) h.0) found in
    ground (arith, after_nth (suc n) (next ∷ rows) last h.1 found)

after_both :
    (k : Option ℕ) (last row : UserRow)
    → after_cursor k last ≡ true
    → after_cursor (some last.id) row ≡ true
    → after_cursor k row ≡ true
unfolding after_cursor
after_both none last row h h' = refl
after_both (some j) last row h h' = ground arith

-- For a sorted table: the rows of a query after the last one of its first n rows are the query's
-- rows without these n.
pub rows_after_nth :
    (k : Option ℕ) (p : UserRow → Bool) (n : ℕ) (table : Table) (last : UserRow)
    → Sorted table
    → let rows = filter_by (λ r. after_cursor k r && p r) table in
      last? (take n rows) ≡ some last
      → filter_by (λ r. after_cursor (some last.id) r && p r) table ≡ drop n rows
rows_after_nth k p n table last h found =
    let rows = filter_by (λ r. after_cursor k r && p r) table in
    let last_in : (after_cursor k last && p last) ≡ true =
      last?-All (λ r. (after_cursor k r && p r) ≡ true) (take n rows) last
        (take-All (λ r. (after_cursor k r && p r) ≡ true) n rows
          (All-passed (λ r. after_cursor k r && p r) table))
        found in
    sym (
      filter_by-filter_by (after_cursor (some last.id)) (λ r. after_cursor k r && p r)
        (λ r. after_cursor (some last.id) r && p r) (λ r. same_test k last r (p r) (ground arith))
        table)
    ∙ after_nth n rows last (filter_by-Sorted (λ r. after_cursor k r && p r) table h) found
  where
    same_test :
        (k : Option ℕ) (last r : UserRow) (b : Bool)
        → after_cursor k last ≡ true
        → (after_cursor (some last.id) r && (after_cursor k r && b))
          ≡ (after_cursor (some last.id) r && b)
    same_test k last r b h = ground (arith, after_both k last r h)
