-- ===== src/Audit.antt =====
-- internal/port/auditor.go and internal/adapter/audit/postgres.go: the entries of the audit log,
-- and their table. The values of an entry (`any`) are the maps of texts, numbers and flags that the
-- program makes; json.Marshal and json.Unmarshal of them are parameters, as are the fresh id of a
-- row and what the database answers. A timestamp is a number. ORDER BY leaves the order of rows of
-- the same time open; here it is that of the table.
pub mod Records
pub mod Queries
pub mod Decorators
mod Tests
use mathlib.Core.Option
use goscratch.Base.{
  ℕ, zero, suc, ◌+◌, Bool, true, false, not, ◌&&◌, ◌||◌, Option, none, some, List, [], ◌∷◌, ◌++◌,
  map, if◌then◌else◌, ltb, leb, take, filter_by, Str, lit, str_eq,
}
use goscratch.Base.Int.{ℤ, pos, negsuc}
use goscratch.Apperr.{GoError, plain, wrapped, Result, ok, err}

pub data Scalar : Type 0 where
  word : Str → Scalar
  count : ℕ → Scalar
  yes_no : Bool → Scalar

abbrev pub Values : Type 0
Values = List (Str × Scalar)

pub record AuditEntry : Type 0 where
  pub id : Str
  pub user_id : Str
  pub action : Str
  pub resource : Str
  pub resource_id : Str
  pub old_value : Option Values
  pub new_value : Option Values
  pub metadata : Option Values
  pub ip_address : Str
  pub user_agent : Str
  pub timestamp : ℕ

pub record AuditFilter : Type 0 where
  pub user_id : Str
  pub action : Str
  pub resource : Str
  pub resource_id : Str
  pub start_time : Option ℕ
  pub end_time : Option ℕ
  pub limit : ℤ
  pub cursor : Str

pub record AuditContext : Type 0 where
  pub user_id : Str
  pub ip_address : Str
  pub user_agent : Str

-- ExtractAuditContext, of the three values of the request's context, where they are texts
unfoldable pub or_empty : Option Str → Str
or_empty none = lit ""
or_empty (some s) = s

unfoldable pub extract_audit_context : Option Str → Option Str → Option Str → AuditContext
unfolding or_empty
extract_audit_context user_id ip ua = record {
  user_id = or_empty user_id;
  ip_address = or_empty ip;
  user_agent = or_empty ua;
}

unfoldable pub new_audit_entry : AuditContext → ℕ → Str → Str → Str → AuditEntry
new_audit_entry ac now action resource resource_id = record {
  id = lit "";
  user_id = ac.user_id;
  action = action;
  resource = resource;
  resource_id = resource_id;
  old_value = none;
  new_value = none;
  metadata = none;
  ip_address = ac.ip_address;
  user_agent = ac.user_agent;
  timestamp = now;
}

-- a row of audit_logs
pub record AuditRow : Type 0 where
  pub id : Str
  pub user_id : Option Str
  pub action : Str
  pub resource : Str
  pub resource_id : Str
  pub old_value : Option Str
  pub new_value : Option Str
  pub ip_address : Option Str
  pub user_agent : Option Str
  pub created_at : ℕ

-- nullString, and the user id
unfoldable pub null_string : Str → Option Str
null_string s = if str_eq s (lit "") then none else some s

-- the rows by descending time
unfoldable pub insert_desc : AuditRow → List AuditRow → List AuditRow
insert_desc r [] = r ∷ []
insert_desc r (x ∷ rows) =
    let rest = insert_desc r rows in
    if leb x.created_at r.created_at then r ∷ x ∷ rows else x ∷ rest

unfoldable pub order_desc : List AuditRow → List AuditRow
unfolding insert_desc
order_desc [] = []
order_desc (r ∷ rows) = insert_desc r (order_desc rows)

-- a test that is only made when the filter has a text for it
unfoldable pub asked : Str → Option Str → Bool
asked want have = str_eq want (lit "") || (elim have [ none ↦ false | some s ↦ str_eq s want ])

unfoldable pub row_matches : AuditFilter → AuditRow → Bool
unfolding asked
row_matches filter r =
    asked filter.user_id r.user_id
    && (asked filter.action (some r.action)
        && (asked filter.resource (some r.resource)
            && (asked filter.resource_id (some r.resource_id)
                && ((elim filter.start_time [ none ↦ true | some t ↦ leb t r.created_at ])
                    && (elim filter.end_time [ none ↦ true | some t ↦ leb r.created_at t ])))))

unfoldable pub query_limit : ℤ → ℕ
query_limit (pos zero) = 50
query_limit (pos (suc n)) = suc n
query_limit (negsuc n) = 50

-- What PostgreSQL makes of a value that a column stores: the text of a JSON document in a JSONB
-- column, an address in an INET column, and a time in a TIMESTAMPTZ column, which counts
-- microseconds. A value that a column refuses is an outage of the INSERT.
pub record Columns : Type 0 where
  pub jsonb : Str → Str
  pub inet : Str → Str
  pub timestamptz : ℕ → ℕ

module _ (marshal : Values → Result Str) (unmarshal : Str → Option Values) (columns : Columns) where
  -- the JSON of a value that is there
  unfoldable pub marshal_value : Str → Option Values → Result (Option Str)
  marshal_value what none = ok none
  marshal_value what (some v) = elim (marshal v) [
    | err e ↦ err (wrapped what e)
    | ok json ↦ ok (some json)
  ]

  unfoldable pub row_of : Str → AuditEntry → Option Str → Option Str → AuditRow
  unfolding null_string
  row_of fresh entry old_json new_json = record {
    id = fresh;
    user_id = null_string entry.user_id;
    action = entry.action;
    resource = entry.resource;
    resource_id = entry.resource_id;
    old_value = Option.map columns.jsonb old_json;
    new_value = Option.map columns.jsonb new_json;
    ip_address = Option.map columns.inet (null_string entry.ip_address);
    user_agent = null_string entry.user_agent;
    created_at = columns.timestamptz entry.timestamp;
  }

  -- Log; `outage` is the error of the INSERT, if it fails
  unfoldable pub log :
      Str → Option GoError → AuditEntry → List AuditRow → Option GoError × List AuditRow
  unfolding marshal_value row_of
  log fresh outage entry rows =
      elim (marshal_value (lit "failed to marshal old value") entry.old_value) [
        | err e ↦ (some e, rows)
        | ok old_json ↦ elim (marshal_value (lit "failed to marshal new value") entry.new_value) [
          | err e ↦ (some e, rows)
          | ok new_json ↦ elim outage [
            | some e ↦ (some (wrapped (lit "failed to insert audit log") e), rows)
            | none ↦ (none, row_of fresh entry old_json new_json ∷ rows)
          ]
        ]
      ]

  -- a row that is read; a value that does not unmarshal stays nil
  unfoldable pub value_of : Option Str → Option Values
  value_of none = none
  value_of (some json) = unmarshal json

  unfoldable pub entry_of : AuditRow → AuditEntry
  unfolding value_of or_empty
  entry_of r = record {
    id = r.id;
    user_id = or_empty r.user_id;
    action = r.action;
    resource = r.resource;
    resource_id = r.resource_id;
    old_value = value_of r.old_value;
    new_value = value_of r.new_value;
    metadata = none;
    ip_address = or_empty r.ip_address;
    user_agent = or_empty r.user_agent;
    timestamp = r.created_at;
  }

  unfoldable pub query : Option GoError → AuditFilter → List AuditRow → Result (List AuditEntry)
  unfolding query_limit row_matches order_desc entry_of
  query (some e) filter rows = err (wrapped (lit "failed to query audit logs") e)
  query none filter rows = ok (
      map entry_of
        (take (query_limit filter.limit) (order_desc (filter_by (row_matches filter) rows))))
