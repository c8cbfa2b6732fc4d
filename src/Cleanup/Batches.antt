-- ===== src/Cleanup/Batches.antt =====
-- The loop over the batches ends, and with it all old rows.
use goscratch.Base.{
  ℕ, zero, suc, ◌+◌, ◌-◌, ◌<◌, ◌≡◌, refl, ap, arith, inl, inr, Bool, not, Bool-cases, Option, none,
  some, List, [], ◌∷◌, ltb, ◌==◌, length, filter_by, length-filter_by,
}
use goscratch.Apperr.{GoError}
use goscratch.Audit.{AuditRow}
use goscratch.Cleanup.{delete_batch, cleanup}

abbrev pub kept : ℕ → AuditRow → Bool
kept cutoff r = not (ltb r.created_at cutoff)

-- a batch only takes old rows, and what it takes is gone
batch_lem :
    (n cutoff : ℕ) (rows : List AuditRow)
    → let (deleted, rest) = delete_batch n cutoff rows in
      (deleted + length rest ≡ length rows)
      × (filter_by (kept cutoff) rest ≡ filter_by (kept cutoff) rows)
unfolding delete_batch filter_by
batch_lem zero cutoff rows = (omega arith, refl)
batch_lem (suc n) cutoff [] = (refl, refl)
batch_lem (suc n) cutoff (r ∷ rows) =
    let old = batch_lem n cutoff rows in
    let new = batch_lem (suc n) cutoff rows in
    (ground (arith, old.0, new.0), ground (arith, old.1, new.1))

empty_batch :
    (n cutoff : ℕ) (rows : List AuditRow)
    → (delete_batch (suc n) cutoff rows).0 ≡ 0
    → (delete_batch (suc n) cutoff rows).1 ≡ filter_by (kept cutoff) rows
unfolding delete_batch filter_by
empty_batch n cutoff [] h = refl
empty_batch n cutoff (r ∷ rows) h = ground (arith, empty_batch n cutoff rows)

abbrev ended : ℕ → List AuditRow → Option ((Option GoError × ℕ) × List AuditRow)
ended total rows = some ((none, total), rows)

same_end :
    (t t' : ℕ) (rows rows' : List AuditRow) → t ≡ t' → rows ≡ rows' → ended t rows ≡ ended t' rows'
same_end t t' rows rows' p q = cc

-- With a working database, one batch more than there are rows is enough for the loop to end: it
-- returns no error, exactly the rows before the cutoff are gone, and the total is their number.
pub cleanup-ends :
    (outage : ℕ → Option GoError) (cutoff fuel i total : ℕ) (rows : List AuditRow)
    → ((j : ℕ) → outage j ≡ none)
    → length rows < fuel
    → cleanup outage cutoff fuel i total rows
      ≡ some (
        (none, total + (length rows - length (filter_by (kept cutoff) rows))),
        filter_by (kept cutoff) rows,
      )
unfolding cleanup
cleanup-ends outage cutoff zero i total rows up enough = absurd (omega arith)
cleanup-ends outage cutoff (suc fuel) i total rows up enough =
    let batch = batch_lem 1000 cutoff rows in
    let deleted = (delete_batch 1000 cutoff rows).0 in
    let rest = (delete_batch 1000 cutoff rows).1 in
    let keep = filter_by (kept cutoff) rows in
    elim (Bool-cases (deleted == 0)) [
      | inl done ↦
          let nothing : deleted ≡ 0 = ground arith in
          let emptied = empty_batch 999 cutoff rows nothing in
          rw (up i, done, cleanup)
            (same_end _ _ _ _ (omega (arith, ap length emptied, nothing, batch.0)) emptied)
      | inr more ↦
          let next =
            cleanup-ends outage cutoff fuel (suc i) (total + deleted) rest up
              (ground (arith, batch.0)) in
          rw (up i, more, next, cleanup)
            (same_end _ _ _ _
              (omega (arith, ap length batch.1, batch.0, length-filter_by (kept cutoff) rest))
              batch.1)
    ]
