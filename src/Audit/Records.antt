-- ===== src/Audit/Records.antt =====
-- What the audit log keeps of an entry, and what a query returns.
use mathlib.Core.Option
use goscratch.Base.{◌≡◌, Option, some, Str}
use goscratch.Apperr.{Result, ok}
use goscratch.Audit.{Values, Columns}

module _ (marshal : Values → Result Str) (unmarshal : Str → Option Values) (columns : Columns) where
  -- JSON reads back the values that it wrote, from what a JSONB column makes of its text
  abbrev pub Reads : Option Values → Type 0
  Reads v =
      (x : Values)
      → v ≡ some x
      → (json : Str) × (marshal x ≡ ok json) × (unmarshal (columns.jsonb json) ≡ some x)
