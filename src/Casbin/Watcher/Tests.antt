-- ===== src/Casbin/Watcher/Tests.antt =====
-- A watcher over the small enforcer of the adapter's tests.
use goscratch.Base.{◌≡◌, refl, arith, some, List, [], ◌∷◌, ◌++◌, take, length, Str, lit}
use goscratch.Casbin.Adapter.{WatcherOp, update_callback, flush_after}
use goscratch.Casbin.Adapter.Tests.{subjects, start}
use goscratch.Casbin.Watcher.{
  MemoryWatcher, policy_added, policies_added, announce, dispatch, dispatch_times, listen, messages,
  memory_watcher_buf_size,
}
use goscratch.Casbin.Watcher.Delivery.{announce-delivered, any_section_as_policy}

abbrev marshal : WatcherOp → Str
marshal o = o.op

-- the callback keeps the messages, the latest first
abbrev keep : Str → List Str → List Str
keep msg seen = msg ∷ seen

abbrev waiting : MemoryWatcher (List Str)
waiting = record { ch = lit "reload" ∷ []; callback = some keep }

abbrev two_rules : List (List Str)
two_rules = (lit "alice" ∷ []) ∷ (lit "bob" ∷ []) ∷ []

abbrev told : MemoryWatcher (List Str)
told = announce marshal (policies_added (lit "p") (lit "p") two_rules) waiting

announce-delivered_example : dispatch_times (length told.ch) (told, []) ≡ (
  record waiting { ch = [] },
  listen
      (some keep)
      (take memory_watcher_buf_size
        (waiting.ch ++ messages marshal (policies_added (lit "p") (lit "p") two_rules)))
      [],
)
announce-delivered_example =
    announce-delivered marshal (policies_added (lit "p") (lit "p") two_rules) waiting []
      (omega arith)

-- a role that is given to alice
abbrev grouping : WatcherOp
grouping = record {
  op = lit "add_policy";
  sec = lit "g";
  ptype = lit "g";
  params = lit "alice" ∷ lit "admin" ∷ [];
}

any_section_as_policy_example :
    (dispatch (
      announce marshal
          (policy_added (lit "g") (lit "g") (lit "alice" ∷ lit "admin" ∷ []))
          (record { ch = []; callback = some (update_callback subjects (λ msg. some grouping)) }),
      start,
    )).1
    ≡ flush_after subjects (subjects.add_policy (lit "alice" ∷ lit "admin" ∷ [])) start
any_section_as_policy_example =
    any_section_as_policy subjects marshal (λ msg. some grouping) (lit "g") (lit "g")
      (lit "alice" ∷ lit "admin" ∷ []) start refl
