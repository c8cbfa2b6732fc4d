-- ===== src/Queue/Lifecycle.antt =====
-- A closed adapter: what it refuses, and what its consumers still do.
use goscratch.Base.{
  ℕ, zero, suc, ◌<◌, ◌≡◌, refl, ap, sym, ◌∙◌, arith, Bool, true, Option, none, some, Str, lit,
}
use goscratch.Apperr.{GoError, plain, ok}
use goscratch.Queue.{
  Amqp, State, with_pub_channel, publish, publish_json, declare_queue, declare_exchange, bind_queue,
  ping, close, reopen, reconnect, reconnect_consumer,
}
use goscratch.Queue.Reconnect.{reopen-keeps}

module _ (M : Amqp) where
  open M use {World, Chan}

  close-again : (st : State M) → st.0.closed ≡ true → close M st ≡ (none, st)
  unfolding close
  close-again st shut = rw (shut, close) refl

  ping-refused :
      (st : State M)
      → st.0.closed ≡ true
      → ping M none st ≡ (some (plain (lit "queue: closed")), st)
  unfolding ping
  ping-refused st shut = rw (shut, ping) refl

  close-closes : (st : State M) → (close M st).1.0.closed ≡ true
  unfolding close
  close-closes (q, w) = ground arith

  -- After Close, whatever it returned: a publication, the JSON one included, a declaration of a
  -- queue or an exchange, a binding and a ping are refused with an error, Close returns nil, and
  -- none of them touches the connection or a channel. (Consume does not test whether it is closed.)
  pub closed-refuses :
      (st : State M) (exchange key body name : Str) (durable : Bool)
      → let st' = (close M st).1 in
        (publish M exchange key body st' ≡ (some (plain (lit "rabbitmq: adapter closed")), st'))
        × (publish_json M exchange key (ok body) st'
            ≡ (some (plain (lit "rabbitmq: adapter closed")), st'))
        × (declare_queue M none name durable st'
            ≡ (some (plain (lit "rabbitmq: adapter closed")), st'))
        × (declare_exchange M name key durable st'
            ≡ (some (plain (lit "rabbitmq: adapter closed")), st'))
        × (bind_queue M name exchange key st'
            ≡ (some (plain (lit "rabbitmq: adapter closed")), st'))
        × (ping M none st' ≡ (some (plain (lit "queue: closed")), st'))
        × (close M st' ≡ (none, st'))
  unfolding publish publish_json declare_queue declare_exchange bind_queue
  closed-refuses st exchange key body name durable =
      let st' = (close M st).1 in
      let shut = close-closes st in
      (
        rw (shut, with_pub_channel) refl,
        rw (shut, with_pub_channel) refl,
        rw (shut, with_pub_channel) refl,
        rw (shut, with_pub_channel) refl,
        rw (shut, with_pub_channel) refl,
        ping-refused st' shut,
        close-again st' shut,
      )

  -- On an adapter that is closed, with attempts left and a context that has not ended: when an
  -- attempt opens a consumer channel, by a new connection where the old one is closed, the consumer
  -- goes on with it, and Close then returns nil and leaves that connection open.
  pub reconnect_after_close :
      (ended : ℕ → Option GoError) (name : Str) (st st' : State M) (ch : Chan)
      → st.0.closed ≡ true
      → 0 < st.0.opts.max_reconnect_tries
      → ended 1 ≡ none
      → reopen M name st ≡ (ok ch, st')
      → ((reconnect_consumer M ended name st).0 ≡ (ok ch, st')) × (close M st' ≡ (none, st'))
  unfolding reconnect_consumer
  reconnect_after_close ended name st st' ch shut tries alive opened = (
    first_opens st.0.opts.max_reconnect_tries tries,
    close-again st' (ap (λ t. t.1.0.closed) (sym opened) ∙ (reopen-keeps M name st).1 ∙ shut),
  )
    where
      first_opens :
          (tries : ℕ)
          → 0 < tries
          → (reconnect M ended name tries 1 st.0.opts.reconnect_base_delay st).0 ≡ (ok ch, st')
      first_opens zero h = absurd (omega arith)
      first_opens (suc n) h = rw (alive, opened, reconnect) (ap (λ t. (ok ch, t.1)) opened)
