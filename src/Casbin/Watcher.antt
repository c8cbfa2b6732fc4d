-- ===== src/Casbin/Watcher.antt =====
-- internal/adapter/casbin/watcher_memory.go and watcher_redis.go, with encodeOp of casbin.go: the
-- messages that an instance sends when its policy changes, and their delivery to the callback of
-- another. json.Marshal is a parameter (encodeOp drops its error); so is what Redis answers to a
-- PUBLISH. The buffered channel is the list of its messages, the oldest first; one run of the
-- dispatch loop is one step. Calling Close twice, which panics in Go, is not modelled.
pub mod Delivery
mod Tests
use goscratch.Base.{
  ℕ, zero, suc, Bool, true, false, Option, none, some, List, [], ◌∷◌, ◌++◌, if◌then◌else◌, ltb,
  length, Str, lit,
}
use goscratch.Apperr.{GoError}
use goscratch.Casbin.Adapter.{WatcherOp}

abbrev pub memory_watcher_buf_size : ℕ
memory_watcher_buf_size = 64

-- encodeOp
unfoldable pub encode_op : (WatcherOp → Str) → Str → Str → Str → List Str → Str
encode_op marshal op sec ptype params =
    marshal (record { op = op; sec = sec; ptype = ptype; params = params })

-- what a change of the policy is announced by, on either watcher
pub data Change : Type 0 where
  changed : Change
  policy_added : Str → Str → List Str → Change
  policy_removed : Str → Str → List Str → Change
  filtered_removed : Str → Str → ℕ → List Str → Change
  policy_saved : Change
  policies_added : Str → Str → List (List Str) → Change
  policies_removed : Str → Str → List (List Str) → Change

-- one message for each rule
unfoldable pub encode_rules : (WatcherOp → Str) → Str → Str → Str → List (List Str) → List Str
unfolding encode_op
encode_rules marshal op sec ptype [] = []
encode_rules marshal op sec ptype (rule ∷ rules) =
    encode_op marshal op sec ptype rule ∷ encode_rules marshal op sec ptype rules

-- the messages that Update and the UpdateFor methods send, in order
unfoldable pub messages : (WatcherOp → Str) → Change → List Str
unfolding encode_op encode_rules
messages marshal changed = encode_op marshal (lit "reload") (lit "") (lit "") [] ∷ []
messages marshal (policy_added sec ptype params) =
    encode_op marshal (lit "add_policy") sec ptype params ∷ []
messages marshal (policy_removed sec ptype params) =
    encode_op marshal (lit "remove_policy") sec ptype params ∷ []
messages marshal (filtered_removed sec ptype index values) =
    encode_op marshal (lit "reload") (lit "") (lit "") [] ∷ []
messages marshal policy_saved = encode_op marshal (lit "reload") (lit "") (lit "") [] ∷ []
messages marshal (policies_added sec ptype rules) =
    encode_rules marshal (lit "add_policy") sec ptype rules
messages marshal (policies_removed sec ptype rules) =
    encode_rules marshal (lit "remove_policy") sec ptype rules

-- MemoryWatcher, with the callback of SetUpdateCallback as a function on the state S of the
-- instance that listens
pub record MemoryWatcher (S : Type 0) : Type 0 where
  pub ch : List Str
  pub callback : Option (Str → S → S)

module _ {S : Type 0} where
  unfoldable pub new_memory_watcher : MemoryWatcher S
  new_memory_watcher = record { ch = []; callback = none }

  unfoldable pub set_update_callback : (Str → S → S) → MemoryWatcher S → MemoryWatcher S
  set_update_callback f w = record w { callback = some f }

  -- send: a message is dropped when the channel is full
  unfoldable pub send : Str → MemoryWatcher S → MemoryWatcher S
  send msg w =
      if ltb (length w.ch) memory_watcher_buf_size then record w { ch = w.ch ++ (msg ∷ []) } else w

  unfoldable pub send_all : List Str → MemoryWatcher S → MemoryWatcher S
  unfolding send
  send_all [] w = w
  send_all (msg ∷ msgs) w = send_all msgs (send msg w)

  -- Update and the UpdateFor methods, whose error is nil
  unfoldable pub announce : (WatcherOp → Str) → Change → MemoryWatcher S → MemoryWatcher S
  unfolding messages send_all
  announce marshal change = send_all (messages marshal change)

  -- one round of the goroutine of Start; a message without a callback is dropped
  unfoldable pub dispatch : MemoryWatcher S × S → MemoryWatcher S × S
  dispatch (w, s) = elim w.ch [
    | [] ↦ (w, s)
    | msg ∷ rest ↦ elim w.callback [
      | none ↦ (record w { ch = rest }, s)
      | some f ↦ (record w { ch = rest }, f msg s)
    ]
  ]

  unfoldable pub dispatch_times : ℕ → MemoryWatcher S × S → MemoryWatcher S × S
  unfolding dispatch
  dispatch_times zero state = state
  dispatch_times (suc n) state = dispatch_times n (dispatch state)

-- RedisWatcher: publish is the answer of Redis to a message; a method stops at its first error. The
-- second component is what Redis has taken, in order.
unfoldable pub publish_all : (Str → Option GoError) → List Str → Option GoError × List Str
publish_all publish [] = (none, [])
publish_all publish (msg ∷ msgs) =
    let (failure, taken) = publish_all publish msgs in
    elim (publish msg) [ some e ↦ (some e, []) | none ↦ (failure, msg ∷ taken) ]

unfoldable pub redis_announce :
    (WatcherOp → Str) → (Str → Option GoError) → Change → Option GoError × List Str
unfolding messages publish_all
redis_announce marshal publish change = publish_all publish (messages marshal change)

-- listen: the callback, if there is one, on each message of the subscription in order
unfoldable pub listen : {S : Type 0} → Option (Str → S → S) → List Str → S → S
listen none msgs s = s
listen (some f) [] s = s
listen (some f) (msg ∷ msgs) s = listen (some f) msgs (f msg s)
