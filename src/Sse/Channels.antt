-- ===== src/Sse/Channels.antt =====
-- What the heap says of a channel, and what closing and sending do to it.
use goscratch.Base.{
  nat_eq, ℕ, ◌≡◌, refl, Bool, true, false, ◌&&◌, Option, none, some, List, [], ◌∷◌, ◌++◌, arith,
  if◌then◌else◌, ◌==◌, leb, ltb, length, Option-cases, Bool-cases, inl, inr,
}
use goscratch.Base.Dict
use goscratch.Base.Dict.{Dict, get-put}
use goscratch.Sse.{Channel, Heap, close_channel, try_send}

module _ (E : Type 0) where
  -- whether a channel is closed, if it is there
  unfoldable pub status : ℕ → Heap E → Option Bool
  unfolding Dict.get
  status ch heap = elim (Dict.get ch heap) [ none ↦ none | some c ↦ some c.closed ]

  unfoldable pub events : ℕ → Heap E → List E
  unfolding Dict.get
  events ch heap = elim (Dict.get ch heap) [ none ↦ [] | some c ↦ c.buffer ]

  pub status-put :
      (ch j : ℕ) (c : Channel E) (heap : Heap E)
      → status j (Dict.put ch c heap) ≡ (if ch == j then some c.closed else status j heap)
  unfolding status
  status-put ch j c heap = ground (arith, get-put ch j c heap)

  pub events-put :
      (ch j : ℕ) (c : Channel E) (heap : Heap E)
      → events j (Dict.put ch c heap) ≡ (if ch == j then c.buffer else events j heap)
  unfolding events
  events-put ch j c heap = ground (arith, get-put ch j c heap)

  -- an open channel in the heap
  pub opened :
      (ch : ℕ) (heap : Heap E)
      → status ch heap ≡ some false
      → (c : Channel E) × (Dict.get ch heap ≡ some c)
        × (c.closed ≡ false)
        × (events ch heap ≡ c.buffer)
  unfolding status events
  opened ch heap h = elim (Option-cases (Dict.get ch heap)) [
    | inl missing ↦ absurd (ground arith)
    | inr (c, found) ↦ (c, found, ground arith, ground arith)
  ]

  pub close_channel_lem :
      (ch : ℕ) (heap : Heap E)
      → status ch heap ≡ some false
      → (heap' : Heap E) × (close_channel E ch heap ≡ some heap')
        × ((j : ℕ) → status j heap' ≡ (if ch == j then some true else status j heap))
        × ((j : ℕ) → events j heap' ≡ events j heap)
  unfolding close_channel
  close_channel_lem ch heap h =
      let (c, found, open', buffered) = opened ch heap h in
      let c' : Channel E = record c { closed = true } in
      (
        Dict.put ch c' heap,
        rw (found, open', close_channel),
        λ j. status-put ch j c' heap,
        λ j. ground (arith, events-put ch j c' heap),
      )

  pub try_send_lem :
      (size ch : ℕ) (event : E) (heap : Heap E)
      → status ch heap ≡ some false
      → (heap' : Heap E) × (try_send E size ch event heap ≡ some heap')
        × ((j : ℕ) → status j heap' ≡ status j heap)
        × ((j : ℕ)
            → events j heap' ≡ (
                if (ch == j) && ltb (length (events j heap)) size
                then events j heap ++ event ∷ []
                else events j heap))
  unfolding try_send
  try_send_lem size ch event heap h =
      let (c, found, open', buffered) = opened ch heap h in
      let c' : Channel E = record c { buffer = c.buffer ++ event ∷ [] } in
      elim (Bool-cases (leb size (length c.buffer))) [
        | inl full ↦ (heap, rw (found, open', full, try_send), λ j. refl, λ j. ground arith)
        | inr room ↦ (
          Dict.put ch c' heap,
          rw (found, open', room, try_send),
          λ j. ground (arith, status-put ch j c' heap),
          λ j. ground (arith, events-put ch j c' heap),
        )
      ]
