-- ===== src/Queue.antt =====
-- internal/adapter/queue/rabbitmq.go: the RabbitMQ adapter. The AMQP library and the broker are the
-- parameter `Amqp`, an interface of the calls that the adapter makes, with the state of the outside
-- as `World`. newRabbitMQ sets the connection and the publisher channel and nothing clears them, so
-- the tests for nil are left out. The mutex makes the operations on the publisher channel atomic:
-- each is one function. Logging is left out; an int and a Duration are their 64 bits.
pub mod Lifecycle
pub mod Reconnect
pub mod Consumer
mod Tests
use goscratch.Base.{
  ℕ, zero, suc, ◌+◌, Bool, true, false, not, Option, none, some, List, [], ◌∷◌, ◌++◌, if◌then◌else◌,
  Str, lit,
}
use goscratch.Base.Int64.{lt_64, mul_64}
use goscratch.Apperr.{GoError, plain, wrapped, Result, ok, err}

-- an error of QueueDeclarePassive, and whether errors.As finds an amqp.Error with the code NotFound
pub record PassiveFailure : Type 0 where
  pub error : GoError
  pub not_found : Bool

-- amqpConnection, amqpChannel and the dialer
pub record Amqp : Type 1 where
  pub World : Type 0
  pub Conn : Type 0
  pub Chan : Type 0
  pub dial : Str → World → Result Conn × World
  pub channel : Conn → World → Result Chan × World
  pub close_conn : Conn → World → Option GoError × World
  pub is_closed : Conn → World → Bool
  -- the content type, the exchange, the key and the body
  pub publish : Str → Str → Str → Str → Chan → World → Option GoError × World
  pub consume : Str → Chan → World → Option GoError × World
  pub queue_declare : Str → Bool → Chan → World → Option GoError × World
  pub queue_declare_passive : Str → Chan → World → Option PassiveFailure × World
  pub exchange_declare : Str → Str → Bool → Chan → World → Option GoError × World
  -- the queue, the key and the exchange
  pub queue_bind : Str → Str → Str → Chan → World → Option GoError × World
  pub qos : ℕ → Chan → World → Option GoError × World
  pub close_channel : Chan → World → Option GoError × World

pub record Options : Type 0 where
  pub prefetch_count : ℕ
  pub max_reconnect_tries : ℕ
  pub reconnect_base_delay : ℕ
  pub reconnect_max_delay : ℕ

-- a default in place of what is not positive
unfoldable pub or_default : ℕ → ℕ → ℕ
or_default default n = if lt_64 0 n then n else default

unfoldable pub with_defaults : Options → Options
unfolding or_default
with_defaults o = record {
  prefetch_count = or_default 10 o.prefetch_count;
  max_reconnect_tries = or_default 5 o.max_reconnect_tries;
  reconnect_base_delay = or_default 1000000000 o.reconnect_base_delay;
  reconnect_max_delay = or_default 30000000000 o.reconnect_max_delay;
}

unfoldable pub next_backoff : ℕ → ℕ → ℕ
unfolding lt_64 mul_64
next_backoff current ceiling =
    let next = mul_64 current 2 in if lt_64 ceiling next then ceiling else next

-- an error with what failed before it
unfoldable pub explain : Str → Option GoError → Option GoError
explain what none = none
explain what (some e) = some (wrapped what e)

module _ (M : Amqp) where
  open M use {World, Conn, Chan}

  pub record RabbitMq : Type 0 where
    pub url : Str
    pub opts : Options
    pub conn : Conn
    pub pub_ch : Chan
    pub closed : Bool

  abbrev pub State : Type 0
  State = RabbitMq × World

  unfoldable pub new_rabbit_mq : Str → Options → World → Result RabbitMq × World
  unfolding with_defaults
  new_rabbit_mq url opts w =
      let (dialled, w₁) = M.dial url w in
      elim dialled [
        | err e ↦ (err (wrapped (lit "failed to connect to rabbitmq") e), w₁)
        | ok conn ↦
            let (opened, w₂) = M.channel conn w₁ in
            elim opened [
              | err e ↦ (
                err (wrapped (lit "failed to open publisher channel") e),
                (M.close_conn conn w₂).1,
              )
              | ok ch ↦ (
                ok (record {
                  url = url;
                  opts = with_defaults opts;
                  conn = conn;
                  pub_ch = ch;
                  closed = false;
                }),
                w₂,
              )
            ]
      ]

  unfoldable pub with_pub_channel :
      (Chan → World → Option GoError × World) → State → Option GoError × State
  with_pub_channel fn (q, w) =
      if q.closed
      then (some (plain (lit "rabbitmq: adapter closed")), (q, w))
      else let (failure, w') = fn q.pub_ch w in (failure, (q, w'))

  unfoldable pub publish : Str → Str → Str → State → Option GoError × State
  unfolding with_pub_channel
  publish exchange key body =
      with_pub_channel (M.publish (lit "application/octet-stream") exchange key body)

  -- `marshalled` is what json.Marshal makes of the message
  unfoldable pub publish_json : Str → Str → Result Str → State → Option GoError × State
  unfolding with_pub_channel
  publish_json exchange key (err e) st = (some (wrapped (lit "failed to marshal message") e), st)
  publish_json exchange key (ok body) st =
      with_pub_channel (M.publish (lit "application/json") exchange key body) st

  -- `done` is ctx.Err()
  unfoldable pub declare_queue : Option GoError → Str → Bool → State → Option GoError × State
  unfolding with_pub_channel explain
  declare_queue (some done) name durable st = (some done, st)
  declare_queue none name durable st =
      with_pub_channel
        (λ ch w.
          let (failure, w') = M.queue_declare name durable ch w in
          (explain (lit "failed to declare queue") failure, w'))
        st

  unfoldable pub declare_exchange : Str → Str → Bool → State → Option GoError × State
  unfolding with_pub_channel explain
  declare_exchange name kind durable = with_pub_channel (λ ch w.
      let (failure, w') = M.exchange_declare name kind durable ch w in
      (explain (lit "failed to declare exchange") failure, w'))

  unfoldable pub bind_queue : Str → Str → Str → State → Option GoError × State
  unfolding with_pub_channel explain
  bind_queue queue exchange key = with_pub_channel (λ ch w.
      let (failure, w') = M.queue_bind queue key exchange ch w in
      (explain (lit "failed to bind queue") failure, w'))

  -- Ping, on a channel of its own, which is closed at the end
  unfoldable pub ping : Option GoError → State → Option GoError × State
  ping (some done) st = (some done, st)
  ping none (q, w) =
      if q.closed
      then (some (plain (lit "queue: closed")), (q, w))
      else if M.is_closed q.conn w
      then (some (plain (lit "queue: connection closed")), (q, w))
      else let (opened, w₁) = M.channel q.conn w in
        elim opened [
          | err e ↦ (some (wrapped (lit "queue ping: open channel") e), (q, w₁))
          | ok ch ↦
              let (failure, w₂) = M.queue_declare_passive (lit "healthz.probe") ch w₁ in
              let w₃ = (M.close_channel ch w₂).1 in
              elim failure [
                | none ↦ (none, (q, w₃))
                | some f ↦
                    if f.not_found
                    then (none, (q, w₃))
                    else (some (wrapped (lit "queue ping") f.error), (q, w₃))
              ]
        ]

  unfoldable pub first_error : Option GoError → Option GoError → Option GoError
  first_error none second = second
  first_error (some e) second = some e

  unfoldable pub close : State → Option GoError × State
  unfolding first_error
  close (q, w) =
      if q.closed
      then (none, (q, w))
      else let (failure, w₁) = M.close_channel q.pub_ch w in
        let (failure', w₂) = M.close_conn q.conn w₁ in
        (first_error failure failure', (record q { closed = true }, w₂))

  -- openConsumer; the deliveries and the close notices of the channel are the events of Consumer
  unfoldable pub open_consumer : Str → State → Result Chan × State
  open_consumer name (q, w) =
      if M.is_closed q.conn w
      then (err (plain (lit "rabbitmq: connection closed")), (q, w))
      else let (opened, w₁) = M.channel q.conn w in
        elim opened [
          | err e ↦ (err (wrapped (lit "failed to open consumer channel") e), (q, w₁))
          | ok ch ↦
              let (unset, w₂) = M.qos q.opts.prefetch_count ch w₁ in
              elim unset [
                | some e ↦
                    (err (wrapped (lit "failed to set qos") e), (q, (M.close_channel ch w₂).1))
                | none ↦
                    let (unregistered, w₃) = M.consume name ch w₂ in
                    elim unregistered [
                      | some e ↦ (
                        err (wrapped (lit "failed to register consumer") e),
                        (q, (M.close_channel ch w₃).1),
                      )
                      | none ↦ (ok ch, (q, w₃))
                    ]
              ]
        ]

  unfoldable pub redial : State → Option GoError × State
  redial (q, w) =
      let (dialled, w₁) = M.dial q.url w in
      elim dialled [
        | err e ↦ (some e, (q, w₁))
        | ok conn ↦
            let (opened, w₂) = M.channel conn w₁ in
            elim opened [
              | err e ↦ (some e, (q, (M.close_conn conn w₂).1))
              | ok ch ↦
                  let w₃ = (M.close_channel q.pub_ch w₂).1 in
                  let w₄ = (M.close_conn q.conn w₃).1 in
                  (none, (record q { conn = conn; pub_ch = ch }, w₄))
            ]
      ]

  -- one attempt of reconnectConsumer, after its wait
  unfoldable pub reopen : Str → State → Result Chan × State
  unfolding open_consumer redial
  reopen name (q, w) =
      if M.is_closed q.conn w
      then (let (failure, st) = redial (q, w) in
          elim failure [ some e ↦ (err e, st) | none ↦ open_consumer name st ])
      else open_consumer name (q, w)

  -- reconnectConsumer: the attempts left, the number of the next one and the delay before it.
  -- `ended i` is the error of the context when the i-th wait ends with it. The last component is
  -- the waits that were sat out; the number of attempts in the last error is left out.
  unfoldable pub reconnect :
      (ℕ → Option GoError) → Str → ℕ → ℕ → ℕ → State → (Result Chan × State) × List ℕ
  unfolding reopen next_backoff
  reconnect ended name zero attempt delay st =
      ((err (plain (lit "rabbitmq: reconnect exhausted")), st), [])
  reconnect ended name (suc left) attempt delay st =
      let (opened, st') = reopen name st in
      let (rest, waits) =
        reconnect ended name left (suc attempt) (next_backoff delay st.0.opts.reconnect_max_delay)
          st' in
      elim (ended attempt) [
        | some e ↦ ((err e, st), [])
        | none ↦ elim opened [ ok ch ↦ ((ok ch, st'), delay ∷ []) | err e ↦ (rest, delay ∷ waits) ]
      ]

  unfoldable pub reconnect_consumer :
      (ℕ → Option GoError) → Str → State → (Result Chan × State) × List ℕ
  unfolding reconnect
  reconnect_consumer ended name st =
      reconnect ended name st.0.opts.max_reconnect_tries 1 st.0.opts.reconnect_base_delay st

-- What the select of drainDeliveries takes: a message, a close notice, the end of the deliveries,
-- or the end of the context.
pub data Event : Type 0 where
  delivered : Str → Event
  channel_closed : Event
  deliveries_closed : Event
  cancelled : Event

-- Ack, or Nack with requeue
pub data Settled : Type 0 where
  acked : Str → Settled
  requeued : Str → Settled

module _ {H : Type 0} (handler : Str → H → Option GoError × H) where
  unfoldable pub settle : Str → H → Settled × H
  settle body h =
      let (failure, h') = handler body h in
      elim failure [ none ↦ (acked body, h') | some e ↦ (requeued body, h') ]

  -- drainDeliveries on the events of a channel: what it returns (`none` while it waits for more),
  -- what it told the broker, in order, and the handler's state
  unfoldable pub drain_deliveries : List Event → H → Option Bool × (List Settled × H)
  unfolding settle
  drain_deliveries [] h = (none, ([], h))
  drain_deliveries (cancelled ∷ events) h = (some true, ([], h))
  drain_deliveries (channel_closed ∷ events) h = (some false, ([], h))
  drain_deliveries (deliveries_closed ∷ events) h = (some false, ([], h))
  drain_deliveries (delivered body ∷ events) h =
      let (s, h') = settle body h in
      let (stopped, (rest, h'')) = drain_deliveries events h' in (stopped, (s ∷ rest, h''))

  -- runConsumer: for each channel in turn its events and how the waits of the reconnect after it
  -- end; whether the loop has returned is the first component
  unfoldable pub run_consumer :
      (M : Amqp)
      → Str
      → List (List Event × (ℕ → Option GoError))
      → M.Chan
      → State M
      → H
      → Bool × (List Settled × (State M × H))
  unfolding drain_deliveries reconnect_consumer
  run_consumer M name [] ch st h = (false, ([], (st, h)))
  run_consumer M name ((events, ended) ∷ sessions) ch (q, w) h =
      let (stopped, (settled, h')) = drain_deliveries events h in
      let st : State M = (q, (M.close_channel ch w).1) in
      elim stopped [
        | none ↦ (false, (settled, ((q, w), h')))
        | some true ↦ (true, (settled, (st, h')))
        | some false ↦
            let ((reopened, st'), _) = reconnect_consumer M ended name st in
            elim reopened [
              | err e ↦ (true, (settled, (st', h')))
              | ok ch' ↦
                  let (returned, (later, end)) = run_consumer M name sessions ch' st' h' in
                  (returned, (settled ++ later, end))
            ]
      ]
