-- ===== src/Sse/Safety.antt =====
-- No history of the broker panics, and its invariant.
use goscratch.Base.{
  nat_eq, str_eq_instance, ℕ, ◌≤◌, ◌≡◌, ◌≢◌, refl, sym, ◌∙◌, Bool, false, none, some, List, [], ◌∷◌,
  ◌++◌, arith, if◌then◌else◌, ◌==◌, ltb, length, Str, str_eq, str_eq_refl, str_eq_iff, ◌&&◌,
  Bool-cases, inl, inr, length-append, All-weaken,
}
use goscratch.Base.Int.{ℤ}
use goscratch.Base.Dict
use goscratch.Base.Dict.{Dict, get-put, get-remove}
use goscratch.Sse.{Channel, ClientInfo, Clients, Heap, Broker, new_broker, register, send_each}
use goscratch.Sse.Channels.{status, events, status-put, events-put, try_send_lem}
use goscratch.Sse.Clients.{AllClients, Apart, Differs, remove-Apart}

module _ (E : Type 0) where
  abbrev pub IsOpen : Heap E → ClientInfo → Type 0
  IsOpen heap info = status E info.channel heap ≡ some false

  -- Clients hold open channels, each its own; an open channel is some client's; no buffer holds
  -- more than the buffer size; channels from `next` on are not made yet.
  pub record IsSound (b : Broker E) : Type 0 where
    pub open_clients : AllClients (IsOpen b.heap) b.clients
    pub apart : Apart b.clients
    pub fresh : (j : ℕ) → b.next ≤ j → status E j b.heap ≡ none
    pub bounded : (j : ℕ) → length (events E j b.heap) ≤ b.buffer_size
    pub owned :
        (j : ℕ)
        → status E j b.heap ≡ some false
        → (id : Str) × (info : ClientInfo) × (Dict.get id b.clients ≡ some info)
          × (info.channel ≡ j)

  pub new_broker-IsSound : (size : ℤ) → IsSound (new_broker E size)
  unfolding new_broker status events Dict.get
  new_broker-IsSound size = record {
    open_clients = tt;
    apart = tt;
    fresh = λ j h. refl;
    bounded = λ j. omega arith;
    owned = λ j h. absurd (ground arith);
  }

  pub same-IsOpen :
      (heap heap' : Heap E) (clients : Clients)
      → ((j : ℕ) → status E j heap' ≡ status E j heap)
      → AllClients (IsOpen heap) clients
      → AllClients (IsOpen heap') clients
  same-IsOpen heap heap' clients same =
      All-weaken (λ (e : Str × ClientInfo). IsOpen heap e.1)
        (λ (e : Str × ClientInfo). IsOpen heap' e.1) (λ e h. same e.1.channel ∙ h) clients

  -- an operation that changes buffers only
  pub with_heap-IsSound :
      (b : Broker E) (heap : Heap E)
      → IsSound b
      → ((j : ℕ) → status E j heap ≡ status E j b.heap)
      → ((j : ℕ) → length (events E j heap) ≤ b.buffer_size)
      → IsSound (record b { heap = heap })
  with_heap-IsSound b heap h same short = record {
    open_clients = same-IsOpen b.heap heap b.clients same h.open_clients;
    apart = h.apart;
    fresh = λ j le. same j ∙ h.fresh j le;
    bounded = short;
    owned = λ j o. h.owned j (sym (same j) ∙ o);
  }

  pub sent_short :
      (size ch j : ℕ) (event : E) (heap heap' : Heap E)
      → length (events E j heap) ≤ size
      → events E j heap' ≡ (
          if (ch == j) && ltb (length (events E j heap)) size
          then events E j heap ++ event ∷ []
          else events E j heap)
      → length (events E j heap') ≤ size
  sent_short size ch j event heap heap' short sent =
      ground (arith, length-append (events E j heap) (event ∷ []))

  -- Sending to clients whose channels are open does not panic and keeps the bound.
  pub send_each_safe :
      (size : ℕ) (wanted : ClientInfo → Bool) (event : E) (clients : Clients) (heap : Heap E)
      → AllClients (IsOpen heap) clients
      → ((j : ℕ) → length (events E j heap) ≤ size)
      → (heap' : Heap E) × (send_each E size wanted event clients heap ≡ some heap')
        × ((j : ℕ) → status E j heap' ≡ status E j heap)
        × ((j : ℕ) → length (events E j heap') ≤ size)
  unfolding send_each
  send_each_safe size wanted event [] heap all short = (heap, refl, λ j. refl, short)
  send_each_safe size wanted event ((id, info) ∷ clients) heap all short =
      elim (Bool-cases (wanted info)) [
        | inr skipped ↦
            let (heap', run, same, short') =
              send_each_safe size wanted event clients heap all.1 short in
            (heap', rw (skipped, send_each) run, same, short')
        | inl meant ↦
            let (heap₁, sent, same₁, events₁) = try_send_lem E size info.channel event heap all.0 in
            let (heap', run, same, short') =
              send_each_safe size wanted event clients heap₁
                (same-IsOpen heap heap₁ clients same₁ all.1)
                (λ j. sent_short size info.channel j event heap heap₁ (short j) (events₁ j)) in
            (heap', rw (meant, sent, send_each) run, λ j. same j ∙ same₁ j, short')
      ]

  -- what is known of the heap when a client is registered: its prior channel is closed
  pub record IsCleared (id : Str) (b : Broker E) (heap : Heap E) : Type 0 where
    pub others : AllClients (IsOpen heap) (Dict.remove id b.clients)
    pub none_yet : (j : ℕ) → b.next ≤ j → status E j heap ≡ none
    pub same : (j : ℕ) → events E j heap ≡ events E j b.heap
    pub left :
        (j : ℕ)
        → status E j heap ≡ some false
        → (status E j b.heap ≡ some false)
          × ((info : ClientInfo) → Dict.get id b.clients ≡ some info → info.channel ≢ j)

  pub register-IsSound :
      (id : Str) (topics : List Str) (b : Broker E) (heap : Heap E)
      → IsSound b
      → IsCleared id b heap
      → IsSound (register E id topics b heap).1
  unfolding register Dict.put
  register-IsSound id topics b heap h cleared =
      let c : Channel E = record { buffer = []; closed = false } in
      let new_info : ClientInfo = record { channel = b.next; topics = topics } in
      record {
        open_clients = (
          ground (arith, status-put E b.next b.next c heap),
          All-weaken (λ (e : Str × ClientInfo). IsOpen heap e.1)
              (λ (e : Str × ClientInfo). IsOpen (Dict.put b.next c heap) e.1)
              (λ e open'. ground (arith, status-put E b.next e.1.channel c heap))
              (Dict.remove id b.clients) cleared.others,
        );
        apart = (
          All-weaken (λ (e : Str × ClientInfo). IsOpen heap e.1)
              (λ (e : Str × ClientInfo). Differs new_info e.1)
              (λ e open'. ground (arith, cleared.none_yet e.1.channel)) (Dict.remove id b.clients)
              cleared.others,
          remove-Apart id b.clients h.apart,
        );
        fresh = λ j le. ground (arith, status-put E b.next j c heap, cleared.none_yet j);
        bounded = λ j. ground (arith, events-put E b.next j c heap, cleared.same j, h.bounded j);
        owned = λ j o. elim (Bool-cases (b.next == j)) [
          | inl new' ↦ (
            id,
            new_info,
            ground (arith, get-put id id new_info b.clients, str_eq_refl id),
            ground arith,
          )
          | inr old ↦
              let (was, others) = cleared.left j (ground (arith, status-put E b.next j c heap)) in
              let (k, info, found, at) = h.owned j was in
              elim (Bool-cases (str_eq id k)) [
                | inl same ↦ absurd (others info (ground (arith, str_eq_iff id k)) at)
                | inr other ↦ (k, info, ground (arith, get-put id k new_info b.clients), at)
              ]
        ];
      }
