-- ===== src/Sse/Histories.antt =====
-- Histories of the broker as lists of commands.
use goscratch.Base.{
  nat_eq, str_eq_instance, ℕ, ◌≡◌, refl, ◌∙◌, Bool, true, false, Option, none, some, List, [], ◌∷◌,
  arith, if◌then◌else◌, ◌==◌, Str, str_eq, str_eq_iff, Option-cases, List-cases, Bool-cases, inl,
  inr,
}
use goscratch.Base.Dict
use goscratch.Base.Dict.{Dict, get-put, get-remove}
use goscratch.Sse.{
  Channel, ClientInfo, Clients, Heap, Broker, register, subscribe, unsubscribe, send_each, send_to,
  close, close_each, receive, with_heap,
}
use goscratch.Sse.Channels.{status, events, status-put, events-put, close_channel_lem, try_send_lem}
use goscratch.Sse.Clients.{
  AllClients, Apart, Differs, get-AllClients, remove-AllClients, remove-Apart, remove-Differs,
  AllClients-both,
}
use goscratch.Sse.Safety.{
  IsOpen, IsSound, IsCleared, with_heap-IsSound, register-IsSound, send_each_safe, sent_short,
}

module _ (E : Type 0) where
  closed-IsCleared :
      (id : Str) (b : Broker E) (info : ClientInfo) (heap : Heap E)
      → IsSound E b
      → Dict.get id b.clients ≡ some info
      → ((j : ℕ) → status E j heap ≡ (if info.channel == j then some true else status E j b.heap))
      → ((j : ℕ) → events E j heap ≡ events E j b.heap)
      → IsCleared E id b heap
  closed-IsCleared id b info heap h found after same =
      let open' = get-AllClients (IsOpen E b.heap) id b.clients info h.open_clients found in
      record {
        others =
            AllClients-both (IsOpen E b.heap) (Differs info) (IsOpen E heap)
              (Dict.remove id b.clients) (λ i o d. ground (arith, after i.channel))
              (remove-AllClients (IsOpen E b.heap) id b.clients h.open_clients)
              (remove-Differs id b.clients info h.apart found);
        none_yet = λ j le. ground (arith, after j, h.fresh j le);
        same = same;
        left = λ j o. (ground (arith, after j), λ i found' at. ground (arith, after j));
      }

  unregister-IsSound :
      (id : Str) (b : Broker E) (heap : Heap E)
      → IsSound E b
      → IsCleared E id b heap
      → IsSound E (record b { clients = Dict.remove id b.clients; heap = heap })
  unregister-IsSound id b heap h cleared = record {
    open_clients = cleared.others;
    apart = remove-Apart id b.clients h.apart;
    fresh = cleared.none_yet;
    bounded = λ j. ground (arith, cleared.same j, h.bounded j);
    owned = λ j o.
        let (was, others) = cleared.left j o in
        let (k, info, found, at) = h.owned j was in
        elim (Bool-cases (str_eq id k)) [
          | inl same ↦ absurd (others info (ground (arith, str_eq_iff id k)) at)
          | inr other ↦ (k, info, ground (arith, get-remove id k b.clients), at)
        ];
  }

  -- an outcome that did not panic, and the invariant after it
  abbrev pub Safe : Option (Broker E) → Type 0
  Safe r = (b : Broker E) × (r ≡ some b) × IsSound E b

  pub unsubscribe-Safe : (id : Str) (b : Broker E) → IsSound E b → Safe (unsubscribe E id b)
  unfolding unsubscribe
  unsubscribe-Safe id b h = elim (Option-cases (Dict.get id b.clients)) [
    | inl missing ↦ (b, rw (missing, unsubscribe), h)
    | inr (info, found) ↦
        let (heap, done, after, same) =
          close_channel_lem E info.channel b.heap
            (get-AllClients (IsOpen E b.heap) id b.clients info h.open_clients found) in
        (
          record b { clients = Dict.remove id b.clients; heap = heap },
          rw (found, done, unsubscribe),
          unregister-IsSound id b heap h (closed-IsCleared id b info heap h found after same),
        )
  ]

  pub subscribe-Safe :
      (id : Str) (topics : List Str) (b : Broker E)
      → IsSound E b
      → (r : ℕ × Broker E) × (subscribe E id topics b ≡ some r) × IsSound E r.1
  unfolding subscribe
  subscribe-Safe id topics b h = elim (Option-cases (Dict.get id b.clients)) [
    | inl missing ↦ (
      register E id topics b b.heap,
      rw (missing, subscribe),
      register-IsSound E id topics b b.heap h (record {
        others = remove-AllClients (IsOpen E b.heap) id b.clients h.open_clients;
        none_yet = h.fresh;
        same = λ j. refl;
        left = λ j o. (o, λ info found. absurd (ground arith));
      }),
    )
    | inr (info, found) ↦
        let (heap, done, after, same) =
          close_channel_lem E info.channel b.heap
            (get-AllClients (IsOpen E b.heap) id b.clients info h.open_clients found) in
        (
          register E id topics b heap,
          rw (found, done, subscribe),
          register-IsSound E id topics b heap h
              (closed-IsCleared id b info heap h found after same),
        )
  ]

  pub send_each-Safe :
      (wanted : ClientInfo → Bool) (event : E) (b : Broker E)
      → IsSound E b
      → Safe (with_heap E b (send_each E b.buffer_size wanted event b.clients b.heap))
  unfolding with_heap
  send_each-Safe wanted event b h =
      let (heap, sent, same, short) =
        send_each_safe E b.buffer_size wanted event b.clients b.heap h.open_clients h.bounded in
      (record b { heap = heap }, rw (sent, with_heap), with_heap-IsSound E b heap h same short)

  pub send_to-Safe :
      (id : Str) (event : E) (b : Broker E) → IsSound E b → Safe (send_to E id event b)
  unfolding send_to with_heap
  send_to-Safe id event b h = elim (Option-cases (Dict.get id b.clients)) [
    | inl missing ↦ (b, rw (missing, send_to), h)
    | inr (info, found) ↦
        let (heap, sent, same, after) =
          try_send_lem E b.buffer_size info.channel event b.heap
            (get-AllClients (IsOpen E b.heap) id b.clients info h.open_clients found) in
        (
          record b { heap = heap },
          rw (found, sent, send_to, with_heap),
          with_heap-IsSound E b heap h same (λ j.
              sent_short E b.buffer_size info.channel j event b.heap heap (h.bounded j) (after j)),
        )
  ]

  taken-IsSound :
      (ch : ℕ) (b : Broker E) (c : Channel E) (event : E) (rest : List E)
      → IsSound E b
      → Dict.get ch b.heap ≡ some c
      → c.buffer ≡ event ∷ rest
      → IsSound E (record b { heap = Dict.put ch (record c { buffer = rest }) b.heap })
  unfolding status events
  taken-IsSound ch b c event rest h found queued =
      let c' : Channel E = record c { buffer = rest } in
      with_heap-IsSound E b (Dict.put ch c' b.heap) h
        (λ j. ground (arith, status-put E ch j c' b.heap))
        (λ j. ground (arith, events-put E ch j c' b.heap, h.bounded j))

  pub receive-IsSound : (ch : ℕ) (b : Broker E) → IsSound E b → IsSound E (receive E ch b)
  unfolding receive
  receive-IsSound ch b h = elim (Option-cases (Dict.get ch b.heap)) [
    | inl missing ↦ rw (missing, receive) h
    | inr (c, found) ↦ elim (List-cases c.buffer) [
      | inl empty ↦ rw (found, empty, receive) h
      | inr (event, rest, queued) ↦
          rw (found, queued, receive) (taken-IsSound ch b c event rest h found queued)
    ]
  ]

  close_each_safe :
      (clients : Clients) (heap : Heap E)
      → AllClients (IsOpen E heap) clients
      → Apart clients
      → (heap' : Heap E) × (close_each E clients heap ≡ some heap')
        × ((j : ℕ) → events E j heap' ≡ events E j heap)
        × ((j : ℕ) → status E j heap ≡ none → status E j heap' ≡ none)
        × ((j : ℕ)
            → status E j heap' ≡ some false
            → (status E j heap ≡ some false) × AllClients (λ i. (i.channel == j) ≡ false) clients)
  unfolding close_each
  close_each_safe [] heap all apart = (heap, refl, λ j. refl, λ j n. n, λ j o. (o, tt))
  close_each_safe ((id, info) ∷ clients) heap all apart =
      let (heap₁, done, after, same) = close_channel_lem E info.channel heap all.0 in
      let (heap', run, same', none', left) =
        close_each_safe clients heap₁
          (AllClients-both (IsOpen E heap) (Differs info) (IsOpen E heap₁) clients
            (λ i o d. ground (arith, after i.channel)) all.1 apart.0)
          apart.1 in
      (
        heap',
        rw (done, close_each) run,
        λ j. same' j ∙ same j,
        λ j n. none' j (ground (arith, after j, all.0)),
        λ j o.
            let (was, others) = left j o in
            (ground (arith, after j), (ground (arith, after j), others)),
      )

  pub close-Safe : (b : Broker E) → IsSound E b → Safe (close E b)
  unfolding close
  close-Safe b h =
      let (heap, run, same, none', left) =
        close_each_safe b.clients b.heap h.open_clients h.apart in
      (
        record b { clients = []; heap = heap },
        rw (run, close),
        record {
          open_clients = tt;
          apart = tt;
          fresh = λ j le. none' j (h.fresh j le);
          bounded = λ j. ground (arith, same j, h.bounded j);
          owned = λ j o.
              let (was, others) = left j o in
              let (id, info, found, at) = h.owned j was in
              absurd (
                ground (
                  arith,
                  get-AllClients (λ i. (i.channel == j) ≡ false) id b.clients info others found,
                ));
        },
      )
