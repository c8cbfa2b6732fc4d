-- ===== src/Sse.antt =====
-- internal/adapter/sse/broker.go: the broker of server-sent events, with Go's channels as a heap of
-- buffers. Sending on a closed channel and closing one twice panic: `none`. Every operation runs
-- under the broker's lock, so a history is a sequence of them, with receipts by the readers
-- between. Go visits a map in any order; the order of the association list stands for it.
pub mod Channels
pub mod Clients
pub mod Safety
pub mod Histories
pub mod Commands
pub mod Delivery
mod Tests
use goscratch.Base.{
  nat_eq, str_eq_instance, ℕ, zero, suc, ◌+◌, Bool, true, false, ◌||◌, Option, none, some, List, [],
  ◌∷◌, ◌++◌, if◌then◌else◌, leb, length, Str, str_eq,
}
use goscratch.Base.Int.{ℤ, pos, negsuc}
use goscratch.Base.Dict
use goscratch.Base.Dict.{Dict}

-- a buffered channel; `closed` does not empty the buffer
pub record Channel (E : Type 0) : Type 0 where
  pub buffer : List E
  pub closed : Bool

-- `channel` is the reference to the channel, `topics` the set as a list.
pub record ClientInfo : Type 0 where
  pub channel : ℕ
  pub topics : List Str

abbrev pub Clients : Type 0
Clients = Dict Str ClientInfo

unfoldable pub effective_buffer_size : ℤ → ℕ
effective_buffer_size (pos zero) = 100
effective_buffer_size (pos (suc n)) = suc n
effective_buffer_size (negsuc n) = 100

unfoldable pub has_topic : Str → List Str → Bool
has_topic topic [] = false
has_topic topic (t ∷ topics) = str_eq t topic || has_topic topic topics

-- the clients that BroadcastToTopic does not skip
unfoldable pub wants_topic : Str → ClientInfo → Bool
unfolding has_topic
wants_topic topic info =
    if has_topic topic info.topics then true else elim info.topics [ [] ↦ true | ◌∷◌ _ _ ↦ false ]

module _ (E : Type 0) where
  abbrev pub Heap : Type 0
  Heap = Dict ℕ (Channel E)

  -- close(ch)
  unfoldable pub close_channel : ℕ → Heap → Option Heap
  close_channel ch heap = elim (Dict.get ch heap) [
    | none ↦ none
    | some c ↦ if c.closed then none else some (Dict.put ch (record c { closed = true }) heap)
  ]

  -- select { case ch <- event: default: }
  unfoldable pub try_send : ℕ → ℕ → E → Heap → Option Heap
  try_send size ch event heap = elim (Dict.get ch heap) [
    | none ↦ none
    | some c ↦
        if c.closed
        then none
        else if leb size (length c.buffer)
        then some heap
        else some (Dict.put ch (record c { buffer = c.buffer ++ event ∷ [] }) heap)
  ]

  pub record Broker : Type 0 where
    pub clients : Clients
    pub buffer_size : ℕ
    pub heap : Heap
    pub next : ℕ

  unfoldable pub new_broker : ℤ → Broker
  unfolding effective_buffer_size
  new_broker size = record {
    clients = [];
    buffer_size = effective_buffer_size size;
    heap = [];
    next = 0;
  }

  -- a fresh channel for the client, over a heap in which the prior one is closed
  unfoldable pub register : Str → List Str → Broker → Heap → ℕ × Broker
  unfolding Dict.put
  register id topics b heap = (
    b.next,
    record b {
      clients = Dict.put id (record { channel = b.next; topics = topics }) b.clients;
      heap = Dict.put b.next (record { buffer = []; closed = false }) heap;
      next = b.next + 1;
    },
  )

  unfoldable pub subscribe : Str → List Str → Broker → Option (ℕ × Broker)
  unfolding register close_channel Dict.get
  subscribe id topics b = elim (Dict.get id b.clients) [
    | none ↦ some (register id topics b b.heap)
    | some prior ↦ elim (close_channel prior.channel b.heap) [
      | none ↦ none
      | some heap ↦ some (register id topics b heap)
    ]
  ]

  unfoldable pub unsubscribe : Str → Broker → Option Broker
  unfolding close_channel Dict.get Dict.remove
  unsubscribe id b = elim (Dict.get id b.clients) [
    | none ↦ some b
    | some info ↦ elim (close_channel info.channel b.heap) [
      | none ↦ none
      | some heap ↦ some (record b { clients = Dict.remove id b.clients; heap = heap })
    ]
  ]

  -- the loops of Broadcast and BroadcastToTopic
  unfoldable pub send_each : ℕ → (ClientInfo → Bool) → E → Clients → Heap → Option Heap
  unfolding try_send
  send_each size wanted event [] heap = some heap
  send_each size wanted event ((id, info) ∷ clients) heap =
      elim (if wanted info then try_send size info.channel event heap else some heap) [
        | none ↦ none
        | some heap' ↦ send_each size wanted event clients heap'
      ]

  unfoldable pub with_heap : Broker → Option Heap → Option Broker
  with_heap b none = none
  with_heap b (some heap) = some (record b { heap = heap })

  unfoldable pub broadcast : E → Broker → Option Broker
  unfolding send_each with_heap
  broadcast event b = with_heap b (send_each b.buffer_size (λ info. true) event b.clients b.heap)

  unfoldable pub broadcast_to_topic : Str → E → Broker → Option Broker
  unfolding send_each with_heap wants_topic
  broadcast_to_topic topic event b =
      with_heap b (send_each b.buffer_size (wants_topic topic) event b.clients b.heap)

  unfoldable pub send_to : Str → E → Broker → Option Broker
  unfolding try_send with_heap Dict.get
  send_to id event b = elim (Dict.get id b.clients) [
    | none ↦ some b
    | some info ↦ with_heap b (try_send b.buffer_size info.channel event b.heap)
  ]

  unfoldable pub client_count : Broker → ℕ
  client_count b = length b.clients

  -- the loop of Close closes every client's channel; each client is deleted with it
  unfoldable pub close_each : Clients → Heap → Option Heap
  unfolding close_channel
  close_each [] heap = some heap
  close_each ((id, info) ∷ clients) heap = elim (close_channel info.channel heap) [
    | none ↦ none
    | some heap' ↦ close_each clients heap'
  ]

  unfoldable pub close : Broker → Option Broker
  unfolding close_each
  close b = elim (close_each b.clients b.heap) [
    | none ↦ none
    | some heap ↦ some (record b { clients = []; heap = heap })
  ]

  -- A reader takes the oldest event of a channel, if there is one.
  unfoldable pub receive : ℕ → Broker → Broker
  unfolding Dict.get Dict.put
  receive ch b = elim (Dict.get ch b.heap) [
    | none ↦ b
    | some c ↦ elim c.buffer [
      | [] ↦ b
      | ◌∷◌ event rest ↦ record b { heap = Dict.put ch (record c { buffer = rest }) b.heap }
    ]
  ]
