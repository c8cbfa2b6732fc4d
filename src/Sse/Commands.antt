-- ===== src/Sse/Commands.antt =====
-- Every history of the broker, as a list of calls and receipts.
use goscratch.Base.{nat_eq, str_eq_instance, ℕ, refl, true, Option, none, some, List, [], ◌∷◌, Str}
use goscratch.Base.Int.{ℤ}
use goscratch.Sse.{
  Broker, new_broker, subscribe, unsubscribe, broadcast, broadcast_to_topic, send_to, close,
  receive, wants_topic,
}
use goscratch.Sse.Safety.{IsSound, new_broker-IsSound}
use goscratch.Sse.Histories.{
  Safe, subscribe-Safe, unsubscribe-Safe, send_each-Safe, send_to-Safe, receive-IsSound, close-Safe,
}

pub data Command (E : Type 0) : Type 0 where
  subscribing : Str → List Str → Command E
  unsubscribing : Str → Command E
  broadcasting : E → Command E
  broadcasting_to_topic : Str → E → Command E
  sending : Str → E → Command E
  closing : Command E
  receiving : ℕ → Command E

module _ (E : Type 0) where
  unfoldable pub run : Command E → Broker E → Option (Broker E)
  unfolding subscribe unsubscribe broadcast broadcast_to_topic send_to close receive
  run (subscribing id topics) b = elim (subscribe E id topics b) [ none ↦ none | some r ↦ some r.1 ]
  run (unsubscribing id) b = unsubscribe E id b
  run (broadcasting event) b = broadcast E event b
  run (broadcasting_to_topic topic event) b = broadcast_to_topic E topic event b
  run (sending id event) b = send_to E id event b
  run closing b = close E b
  run (receiving ch) b = some (receive E ch b)

  -- `none` when one of the calls panics
  unfoldable pub run_all : List (Command E) → Broker E → Option (Broker E)
  unfolding run
  run_all [] b = some b
  run_all (c ∷ commands) b = elim (run c b) [ none ↦ none | some b' ↦ run_all commands b' ]

  run-Safe : (c : Command E) (b : Broker E) → IsSound E b → Safe E (run c b)
  unfolding run broadcast broadcast_to_topic
  run-Safe (subscribing id topics) b h =
      let (r, done, sound) = subscribe-Safe E id topics b h in (r.1, rw (done, run), sound)
  run-Safe (unsubscribing id) b h = unsubscribe-Safe E id b h
  run-Safe (broadcasting event) b h = send_each-Safe E (λ info. true) event b h
  run-Safe (broadcasting_to_topic topic event) b h = send_each-Safe E (wants_topic topic) event b h
  run-Safe (sending id event) b h = send_to-Safe E id event b h
  run-Safe closing b h = close-Safe E b h
  run-Safe (receiving ch) b h = (receive E ch b, refl, receive-IsSound E ch b h)

  run_all-Safe :
      (commands : List (Command E)) (b : Broker E) → IsSound E b → Safe E (run_all commands b)
  unfolding run_all
  run_all-Safe [] b h = (b, refl, h)
  run_all-Safe (c ∷ commands) b h =
      let (b₁, done, sound) = run-Safe c b h in
      let (b₂, rest, sound') = run_all-Safe commands b₁ sound in
      (b₂, rw (done, run_all) rest, sound')

  -- No history panics: from a new broker of any size, every sequence of calls and receipts runs to
  -- its end without a send on a closed channel or a second close. After it every client's channel
  -- is open and the client's own, every open channel belongs to a client that is registered (so a
  -- replaced or removed reader sees its channel closed), and no buffer holds more than the size.
  pub histories_never_panic :
      (size : ℤ) (commands : List (Command E)) → Safe E (run_all commands (new_broker E size))
  histories_never_panic size commands =
      run_all-Safe commands (new_broker E size) (new_broker-IsSound E size)
