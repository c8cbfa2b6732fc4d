-- ===== src/Cleanup/Tests.antt =====
-- Three rows, two of them before the cutoff.
use goscratch.Base.{
  ℕ, ◌≡◌, ◌+◌, ◌-◌, refl, arith, none, some, List, [], ◌∷◌, filter_by, length, lit,
}
use goscratch.Audit.{AuditRow}
use goscratch.Cleanup.{cleanup}
use goscratch.Cleanup.Batches.{kept, cleanup-ends}

abbrev row : ℕ → AuditRow
row t = record {
  id = lit "r";
  user_id = none;
  action = lit "LOGIN";
  resource = lit "user";
  resource_id = lit "a1";
  old_value = none;
  new_value = none;
  ip_address = none;
  user_agent = none;
  created_at = t;
}

abbrev rows : List AuditRow
rows = row 3 ∷ row 12 ∷ row 5 ∷ []

cleanup-ends_example :
    cleanup (λ j. none) 10 4 1 0 rows
    ≡ some ((none, 0 + (length rows - length (filter_by (kept 10) rows))), filter_by (kept 10) rows)
cleanup-ends_example = cleanup-ends (λ j. none) 10 4 1 0 rows (λ j. refl) (omega arith)
