-- ===== src/Queue/Consumer.antt =====
-- The consumer settles what it is given.
use goscratch.Base.{
  ◌≡◌, refl, Bool, true, false, Option, none, some, Option-cases, inl, inr, List, [], ◌∷◌, Str,
}
use goscratch.Apperr.{GoError}
use goscratch.Queue.{
  Event, delivered, channel_closed, deliveries_closed, cancelled, Settled, acked, requeued, settle,
  drain_deliveries,
}

-- the messages before the first other event, and that event
unfoldable pub bodies : List Event → List Str
bodies [] = []
bodies (delivered body ∷ events) = body ∷ bodies events
bodies (e ∷ events) = []

unfoldable pub end_of : List Event → Option Event
end_of [] = none
end_of (delivered body ∷ events) = end_of events
end_of (e ∷ events) = some e

-- what the loop returns at an event that ends it: true at the end of the context
unfoldable pub stops : Option Event → Option Bool
stops none = none
stops (some cancelled) = some true
stops (some e) = some false

module _ {H : Type 0} (handler : Str → H → Option GoError × H) where
  -- the handler on one message after the other: its answers, and its last state
  unfoldable pub answers : List Str → H → List Settled
  unfolding settle
  answers [] h = []
  answers (body ∷ rest) h =
      (elim (handler body h).0 [ none ↦ acked body | some e ↦ requeued body ])
      ∷ answers rest (handler body h).1

  unfoldable pub handled : List Str → H → H
  handled [] h = h
  handled (body ∷ rest) h = handled rest (handler body h).1

  settle_lem :
      (body : Str) (h : H)
      → settle handler body h ≡ (
        (elim (handler body h).0 [ none ↦ acked body | some e ↦ requeued body ]),
        (handler body h).1,
      )
  unfolding settle
  settle_lem body h = elim (Option-cases (handler body h).0) [
    | inl done ↦ rw (done, settle) refl
    | inr (e, failed) ↦ rw (failed, settle) refl
  ]

  -- On any events of a channel, the loop runs the handler on the messages that come before the
  -- first other event, in order and once each, tells the broker for each of them once whether it is
  -- done (acknowledged when the handler returned nil, put back in the queue when not), and returns
  -- true at the end of the context, false when the channel or the deliveries close, and not before.
  pub drain_deliveries_lem :
      (events : List Event) (h : H)
      → drain_deliveries handler events h
        ≡ (stops (end_of events), (answers (bodies events) h, handled (bodies events) h))
  unfolding drain_deliveries stops end_of answers bodies handled
  drain_deliveries_lem [] h = refl
  drain_deliveries_lem (cancelled ∷ events) h = refl
  drain_deliveries_lem (channel_closed ∷ events) h = refl
  drain_deliveries_lem (deliveries_closed ∷ events) h = refl
  drain_deliveries_lem (delivered body ∷ events) h =
      rw (settle_lem body h, drain_deliveries_lem events (handler body h).1) refl
