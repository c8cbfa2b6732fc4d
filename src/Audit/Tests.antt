-- ===== src/Audit/Tests.antt =====
-- An entry with a new value, and the users of the one-row repository.
use goscratch.Base.{◌≡◌, true, false, Option, some, List, [], ◌∷◌, ◌++◌, ◌*◌, ◌/◌, Str, lit}
use goscratch.Apperr.{GoError, Result, ok, plain}
use goscratch.Auth.Tests.{alice}
use goscratch.User
use goscratch.User.Tests.{one_row, format_time}
use goscratch.Audit.{Values, Columns, AuditContext, AuditEntry, word, new_audit_entry}
use goscratch.Audit.Decorators
use goscratch.Audit.Decorators.Outcome.{switch_log, audited_switches}

abbrev values : Values
values = (lit "name", word (lit "Alice")) ∷ []

abbrev marshal : Values → Result Str
marshal v = ok (lit "{}")

abbrev unmarshal : Str → Option Values
unmarshal json = some values

abbrev context : AuditContext
context = record { user_id = lit "a1"; ip_address = lit "10.0.0.1"; user_agent = lit "" }

abbrev created : AuditEntry
created = record (new_audit_entry context 7 (lit "CREATE") (lit "user") (lit "b2")) {
  new_value = some values;
  metadata = some values;
}

-- times to the microsecond, addresses with a mask
abbrev columns : Columns
columns = record {
  jsonb = λ json. json;
  inet = λ ip. ip ++ lit "/32";
  timestamptz = λ t. t / 1000 * 1000;
}

-- an auditor that keeps the entries and fails
abbrev keep : AuditEntry → List AuditEntry → Option GoError × List AuditEntry
keep e l = (some (plain (lit "down")), e ∷ l)

audited_switches_example :
    let found = User.get_by_id format_time one_row (lit "a1") alice in
    let on = User.activate format_time one_row (lit "a1") alice in
    let off = User.deactivate format_time one_row (lit "a1") alice in
    (Decorators.activate keep context 7
        (User.get_by_id format_time one_row)
        (User.activate format_time one_row)
        (lit "a1")
        alice
        []
      ≡ (on.0, (on.1, switch_log keep context 7 true (lit "a1") on.0 found [])))
    × (Decorators.deactivate keep context 7
          (User.get_by_id format_time one_row)
          (User.deactivate format_time one_row)
          (lit "a1")
          alice
          []
        ≡ (off.0, (off.1, switch_log keep context 7 false (lit "a1") off.0 found [])))
audited_switches_example = audited_switches keep context 7 format_time one_row (lit "a1") alice []
