-- ===== src/Sse/Delivery.antt =====
-- Who gets an event.
use goscratch.Base.{
  nat_eq, str_eq_instance, ℕ, ◌≡◌, refl, ap, ◌∙◌, Bool, true, ◌&&◌, some, List, [], ◌∷◌, ◌++◌,
  arith, if◌then◌else◌, ltb, length, Str, Bool-cases, inl, inr,
}
use goscratch.Base.Dict
use goscratch.Base.Dict.{Dict}
use goscratch.Sse.{
  ClientInfo, Clients, Heap, Broker, send_each, broadcast, broadcast_to_topic, with_heap,
  wants_topic,
}
use goscratch.Sse.Channels.{events, try_send_lem}
use goscratch.Sse.Clients.{AllClients, Apart, targeted, targeted-Differs, targeted-get}
use goscratch.Sse.Safety.{IsOpen, IsSound, same-IsOpen}

module _ (E : Type 0) where
  -- the buffer after a send, if there is room
  abbrev pub queued : Bool → ℕ → E → List E → List E
  queued meant size event buffer =
      if meant && ltb (length buffer) size then buffer ++ event ∷ [] else buffer

  send_each-events :
      (size : ℕ) (wanted : ClientInfo → Bool) (event : E) (clients : Clients) (heap : Heap E)
      → AllClients (IsOpen E heap) clients
      → Apart clients
      → (heap' : Heap E) × (send_each E size wanted event clients heap ≡ some heap')
        × ((j : ℕ)
            → events E j heap' ≡ queued (targeted wanted j clients) size event (events E j heap))
  unfolding send_each targeted
  send_each-events size wanted event [] heap all apart = (heap, refl, λ j. refl)
  send_each-events size wanted event ((id, info) ∷ clients) heap all apart =
      elim (Bool-cases (wanted info)) [
        | inr skipped ↦
            let (heap', run, after) =
              send_each-events size wanted event clients heap all.1 apart.1 in
            (heap', rw (skipped, send_each) run, λ j. ground (arith, after j))
        | inl meant ↦
            let (heap₁, sent, same₁, after₁) = try_send_lem E size info.channel event heap all.0 in
            let (heap', run, after) =
              send_each-events size wanted event clients heap₁
                (same-IsOpen E heap heap₁ clients same₁ all.1) apart.1 in
            (
              heap',
              rw (meant, sent, send_each) run,
              λ j. ground (arith, after j, after₁ j, targeted-Differs wanted info clients apart.0),
            )
      ]

  -- In a sound broker, a broadcast to a topic ends without a panic and puts the event at the end of
  -- the buffer of each registered client that has the topic or has none, if there is room, and
  -- leaves the other clients' buffers as they were; a broadcast does this for every client.
  pub broadcast_delivers :
      (topic : Str) (event : E) (b : Broker E)
      → IsSound E b
      → ((b' : Broker E) × (broadcast_to_topic E topic event b ≡ some b')
          × ((id : Str) (info : ClientInfo)
              → Dict.get id b.clients ≡ some info
              → events E info.channel b'.heap
                ≡ queued
                    (wants_topic topic info)
                    b.buffer_size
                    event
                    (events E info.channel b.heap)))
        × ((b' : Broker E) × (broadcast E event b ≡ some b')
            × ((id : Str) (info : ClientInfo)
                → Dict.get id b.clients ≡ some info
                → events E info.channel b'.heap
                  ≡ queued true b.buffer_size event (events E info.channel b.heap)))
  unfolding broadcast_to_topic broadcast with_heap
  broadcast_delivers topic event b h =
      let (heap, run, after) =
        send_each-events b.buffer_size (wants_topic topic) event b.clients b.heap h.open_clients
          h.apart in
      let (heap', run', after') =
        send_each-events b.buffer_size (λ info. true) event b.clients b.heap h.open_clients
          h.apart in
      (
        (
          record b { heap = heap },
          rw (run, with_heap),
          λ id info found.
              after info.channel
              ∙ ap (λ m. queued m b.buffer_size event (events E info.channel b.heap))
                  (targeted-get (wants_topic topic) id b.clients info h.apart found),
        ),
        (
          record b { heap = heap' },
          rw (run', with_heap),
          λ id info found.
              after' info.channel
              ∙ ap (λ m. queued m b.buffer_size event (events E info.channel b.heap))
                  (targeted-get (λ i. true) id b.clients info h.apart found),
        ),
      )
