-- ===== src/Cleanup.antt =====
-- internal/worker/handlers/audit_cleanup_handler.go: the job that deletes old rows of the audit log
-- in batches. `cutoff_of` is the time that many days ago; `outage i` is the error of the i-th
-- DELETE, if it fails. Of the rows that qualify a batch takes the first ones of the table.
pub mod Batches
mod Tests
use goscratch.Base.{
  ℕ, zero, suc, ◌+◌, Bool, true, false, Option, none, some, List, [], ◌∷◌, if◌then◌else◌, ltb, ◌==◌,
  Str, lit,
}
use goscratch.Base.Int64.{lt_64}
use goscratch.Apperr.{GoError, wrapped, Result, ok, err}
use goscratch.Audit.{AuditRow}

-- DELETE ... WHERE created_at < cutoff LIMIT n: RowsAffected, and the rows that stay
unfoldable pub delete_batch : ℕ → ℕ → List AuditRow → ℕ × List AuditRow
delete_batch zero cutoff rows = (0, rows)
delete_batch (suc n) cutoff [] = (0, [])
delete_batch (suc n) cutoff (r ∷ rows) =
    let (deleted, rest) = delete_batch n cutoff rows in
    let (deleted', rest') = delete_batch (suc n) cutoff rows in
    if ltb r.created_at cutoff then (suc deleted, rest) else (deleted', r ∷ rest')

-- the loop, at its i-th batch with the total so far; `none` when the fuel runs out
unfoldable pub cleanup :
    (ℕ → Option GoError)
    → ℕ
    → ℕ
    → ℕ
    → ℕ
    → List AuditRow
    → Option ((Option GoError × ℕ) × List AuditRow)
unfolding delete_batch
cleanup outage cutoff zero i total rows = none
cleanup outage cutoff (suc fuel) i total rows =
    let (deleted, rest) = delete_batch 1000 cutoff rows in
    let next = cleanup outage cutoff fuel (suc i) (total + deleted) rest in
    elim (outage i) [
      | some e ↦ some ((some (wrapped (lit "failed to delete old audit logs") e), total), rows)
      | none ↦ if deleted == 0 then some ((none, total), rest) else next
    ]

-- a retention that is not positive is 90 days
unfoldable pub retention : ℕ → ℕ
unfolding lt_64
retention days = if lt_64 0 days then days else 90

-- Handle; `payload` is the RetentionDays that the payload unmarshals to
unfoldable pub handle :
    (ℕ → ℕ)
    → (ℕ → Option GoError)
    → ℕ
    → Result ℕ
    → List AuditRow
    → Option ((Option GoError × ℕ) × List AuditRow)
unfolding retention cleanup
handle cutoff_of outage fuel (err e) rows =
    some ((some (wrapped (lit "failed to unmarshal audit cleanup payload") e), 0), rows)
handle cutoff_of outage fuel (ok days) rows =
    cleanup outage (cutoff_of (retention days)) fuel 1 0 rows
