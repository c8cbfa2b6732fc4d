-- ===== src/Sse/Tests.antt =====
-- A broker with events that are numbers.
use goscratch.Base.{
  nat_eq, str_eq_instance, ℕ, ◌≡◌, refl, subst, arith, true, false, some, List, [], ◌∷◌, Str, lit,
}
use goscratch.Base.Int.{pos}
use goscratch.Base.Dict
use goscratch.Sse.{
  ClientInfo, Broker, new_broker, broadcast, broadcast_to_topic, wants_topic, subscribe, register,
  effective_buffer_size,
}
use goscratch.Sse.Channels.{events}
use goscratch.Sse.Safety.{IsSound, new_broker-IsSound}
use goscratch.Sse.Histories.{Safe, subscribe-Safe}
use goscratch.Sse.Commands.{
  Command, subscribing, unsubscribing, broadcasting, broadcasting_to_topic, sending, closing,
  receiving, run_all, histories_never_panic,
}
use goscratch.Sse.Delivery.{queued, broadcast_delivers}

-- two subscriptions of one client, a broadcast, a second client, a topic, and the end
abbrev history : List (Command ℕ)
history =
    subscribing (lit "a") []
    ∷ subscribing (lit "a") (lit "news" ∷ [])
    ∷ broadcasting 7
    ∷ subscribing (lit "b") (lit "chat" ∷ [])
    ∷ broadcasting_to_topic (lit "news") 8
    ∷ receiving 1
    ∷ unsubscribing (lit "a")
    ∷ sending (lit "b") 9
    ∷ closing
    ∷ []

histories_never_panic_example : Safe ℕ (run_all ℕ history (new_broker ℕ (pos 2)))
histories_never_panic_example = histories_never_panic ℕ (pos 2) history

abbrev empty : Broker ℕ
empty = new_broker ℕ (pos 2)

-- a client that has asked for a topic
abbrev one : Broker ℕ
one = record {
  clients = (lit "a", record { channel = 0; topics = lit "news" ∷ [] }) ∷ [];
  buffer_size = 2;
  heap = (0, record { buffer = []; closed = false }) ∷ [];
  next = 1;
}

subscribed : subscribe ℕ (lit "a") (lit "news" ∷ []) empty ≡ some (0, one)
unfolding subscribe register new_broker effective_buffer_size Dict.get Dict.put Dict.remove
subscribed = refl

one-IsSound : IsSound ℕ one
one-IsSound =
    let (r, done, sound) =
      subscribe-Safe ℕ (lit "a") (lit "news" ∷ []) empty (new_broker-IsSound ℕ (pos 2)) in
    let same : r.1 ≡ one = ground (arith, subscribed) in subst (λ b. IsSound ℕ b) same sound

broadcast_delivers_example :
    ((b' : Broker ℕ) × (broadcast_to_topic ℕ (lit "news") 8 one ≡ some b')
      × ((id : Str) (info : ClientInfo)
          → Dict.get id one.clients ≡ some info
          → events ℕ info.channel b'.heap
            ≡ queued ℕ
                (wants_topic (lit "news") info)
                one.buffer_size
                8
                (events ℕ info.channel one.heap)))
    × ((b' : Broker ℕ) × (broadcast ℕ 8 one ≡ some b')
        × ((id : Str) (info : ClientInfo)
            → Dict.get id one.clients ≡ some info
            → events ℕ info.channel b'.heap
              ≡ queued ℕ true one.buffer_size 8 (events ℕ info.channel one.heap)))
broadcast_delivers_example = broadcast_delivers ℕ (lit "news") 8 one one-IsSound
