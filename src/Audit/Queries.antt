-- ===== src/Audit/Queries.antt =====
-- The answer of a query on the audit log.
use goscratch.Base.{
  ℕ, zero, suc, ◌≡◌, ◌≤◌, refl, arith, true, Option, none, List, [], ◌∷◌, map, if_ind, leb, leb→le,
  leb→lt, take, take-All, length, length-take, All, All-weaken, All-passed, filter_by, Str,
}
use goscratch.Apperr.{Result, ok}
use goscratch.Audit.{
  Values, Columns, AuditRow, AuditFilter, row_matches, query_limit, insert_desc, order_desc,
  entry_of, query,
}

-- the latest first
abbrev pub RecentFirst : List AuditRow → Type 0
RecentFirst [] = Unit
RecentFirst (r ∷ rows) = All (λ (x : AuditRow). x.created_at ≤ r.created_at) rows × RecentFirst rows

insert-All :
    (P : AuditRow → Type 0) (r : AuditRow) (rows : List AuditRow)
    → P r
    → All P rows
    → All P (insert_desc r rows)
unfolding insert_desc
insert-All P r [] p h = (p, tt)
insert-All P r (x ∷ rows) p h =
    if_ind (All P) (leb x.created_at r.created_at) (λ _. (p, h))
      (λ _. (h.0, insert-All P r rows p h.1))

order-All : (P : AuditRow → Type 0) (rows : List AuditRow) → All P rows → All P (order_desc rows)
unfolding order_desc
order-All P [] h = tt
order-All P (r ∷ rows) h = insert-All P r (order_desc rows) h.0 (order-All P rows h.1)

insert-RecentFirst :
    (r : AuditRow) (rows : List AuditRow) → RecentFirst rows → RecentFirst (insert_desc r rows)
unfolding insert_desc
insert-RecentFirst r [] h = (tt, tt)
insert-RecentFirst r (x ∷ rows) h =
    if_ind RecentFirst (leb x.created_at r.created_at)
      (λ older.
        let le = leb→le x.created_at r.created_at older in
        (
          (
            le,
            All-weaken (λ (y : AuditRow). y.created_at ≤ x.created_at)
                (λ (y : AuditRow). y.created_at ≤ r.created_at) (λ y le'. omega arith) rows h.0,
          ),
          h,
        ))
      (λ newer.
        let lt = leb→lt x.created_at r.created_at newer in
        (
          insert-All (λ (y : AuditRow). y.created_at ≤ x.created_at) r rows (omega arith) h.0,
          insert-RecentFirst r rows h.1,
        ))

order-RecentFirst : (rows : List AuditRow) → RecentFirst (order_desc rows)
unfolding order_desc
order-RecentFirst [] = tt
order-RecentFirst (r ∷ rows) = insert-RecentFirst r (order_desc rows) (order-RecentFirst rows)

take-RecentFirst : (n : ℕ) (rows : List AuditRow) → RecentFirst rows → RecentFirst (take n rows)
take-RecentFirst zero rows h = tt
take-RecentFirst (suc n) [] h = tt
take-RecentFirst (suc n) (r ∷ rows) h = (
  take-All (λ (x : AuditRow). x.created_at ≤ r.created_at) n rows h.0,
  take-RecentFirst n rows h.1,
)

module _ (marshal : Values → Result Str) (unmarshal : Str → Option Values) (columns : Columns) where
  -- On a working database a query returns the entries of rows that all pass the filter, the latest
  -- first, and at most as many as the limit, or 50 when the limit is not positive.
  pub query_lem :
      (filter : AuditFilter) (rows : List AuditRow)
      → (found : List AuditRow) × (query marshal unmarshal columns none filter rows
          ≡ ok (map (entry_of marshal unmarshal columns) found))
        × All (λ r. row_matches filter r ≡ true) found
        × RecentFirst found
        × (length found ≤ query_limit filter.limit)
  unfolding query
  query_lem filter rows =
      let passed = filter_by (row_matches filter) rows in
      let n = query_limit filter.limit in
      (
        take n (order_desc passed),
        refl,
        take-All (λ r. row_matches filter r ≡ true) n (order_desc passed)
            (order-All (λ r. row_matches filter r ≡ true) passed
              (All-passed (row_matches filter) rows)),
        take-RecentFirst n (order_desc passed) (order-RecentFirst passed),
        omega (arith, length-take n (order_desc passed)),
      )
