-- ===== src/Queue/Tests.antt =====
-- A broker that refuses consumers, and a handler that fails on one message.
use goscratch.Base.{
  ℕ, suc, ◌≡◌, ◌≤◌, ◌<◌, arith, true, false, Option, none, some, List, [], ◌∷◌, All, length,
  if◌then◌else◌, Str, lit, str_eq,
}
use goscratch.Apperr.{GoError, plain, ok, err}
use goscratch.Queue.{
  Amqp, State, Options, Event, delivered, deliveries_closed, drain_deliveries, publish,
  publish_json, declare_queue, declare_exchange, bind_queue, ping, close, reconnect_consumer,
}
use goscratch.Queue.Reconnect.{reconnect_consumer-bounds}
use goscratch.Queue.Lifecycle.{closed-refuses}
use goscratch.Queue.Consumer.{drain_deliveries_lem, bodies, end_of, stops, answers, handled}

-- the world counts the calls
abbrev broker : Amqp
broker = record {
  World = ℕ;
  Conn = Unit;
  Chan = Unit;
  dial = λ url w. (ok tt, suc w);
  channel = λ c w. (ok tt, suc w);
  close_conn = λ c w. (none, suc w);
  is_closed = λ c w. false;
  publish = λ t exchange key body ch w. (none, suc w);
  consume = λ name ch w. (some (plain (lit "no queue")), suc w);
  queue_declare = λ name durable ch w. (none, suc w);
  queue_declare_passive = λ name ch w. (none, suc w);
  exchange_declare = λ name kind durable ch w. (none, suc w);
  queue_bind = λ name key exchange ch w. (none, suc w);
  qos = λ n ch w. (none, suc w);
  close_channel = λ ch w. (none, suc w);
}

abbrev opts : Options
opts = record {
  prefetch_count = 10;
  max_reconnect_tries = 3;
  reconnect_base_delay = 1000000000;
  reconnect_max_delay = 3000000000;
}

abbrev connected : State broker
connected = (record { url = lit "amqp://"; opts = opts; conn = tt; pub_ch = tt; closed = false }, 0)

abbrev never : ℕ → Option GoError
never i = none

reconnect_consumer-bounds_example :
    let (outcome, waits) = reconnect_consumer broker never (lit "jobs") connected in
    All (λ d. (0 < d) × (d ≤ 3000000000)) waits
    × (length waits ≤ 3)
    × (((i : ℕ) → never i ≡ none) → (e : GoError) → outcome.0 ≡ err e → length waits ≡ 3)
reconnect_consumer-bounds_example =
    reconnect_consumer-bounds broker never (lit "jobs") connected (omega arith) (omega arith)
      (omega arith)

abbrev shut : State broker
shut = (close broker connected).1

closed-refuses_example :
    (publish broker (lit "") (lit "jobs") (lit "x") shut
      ≡ (some (plain (lit "rabbitmq: adapter closed")), shut))
    × (publish_json broker (lit "") (lit "jobs") (ok (lit "x")) shut
        ≡ (some (plain (lit "rabbitmq: adapter closed")), shut))
    × (declare_queue broker none (lit "jobs") true shut
        ≡ (some (plain (lit "rabbitmq: adapter closed")), shut))
    × (declare_exchange broker (lit "jobs") (lit "jobs") true shut
        ≡ (some (plain (lit "rabbitmq: adapter closed")), shut))
    × (bind_queue broker (lit "jobs") (lit "") (lit "jobs") shut
        ≡ (some (plain (lit "rabbitmq: adapter closed")), shut))
    × (ping broker none shut ≡ (some (plain (lit "queue: closed")), shut))
    × (close broker shut ≡ (none, shut))
closed-refuses_example =
    closed-refuses broker connected (lit "") (lit "jobs") (lit "x") (lit "jobs") true

-- fails on "bad", and counts the messages
abbrev handler : Str → ℕ → Option GoError × ℕ
handler body n = ((if str_eq body (lit "bad") then some (plain (lit "failed")) else none), suc n)

abbrev events : List Event
events =
    delivered (lit "good") ∷ delivered (lit "bad") ∷ deliveries_closed ∷ delivered (lit "late") ∷ []

drain_deliveries_lem_example : drain_deliveries handler events 0 ≡ (
  stops (end_of events),
  (answers handler (bodies events) 0, handled handler (bodies events) 0),
)
drain_deliveries_lem_example = drain_deliveries_lem handler events 0
