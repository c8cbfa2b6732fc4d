-- ===== src/Worker.antt =====
-- internal/worker: jobs (job.go) and the worker's handling of a message (worker.go). The JSON
-- coder, the queue and the handlers are parameters; `W` is the world that the handlers act on. A
-- handler is given a pointer to the job, so it returns the job as it leaves it.
pub mod Retries
mod Tests
use goscratch.Base.{
  str_eq_instance, ℕ, zero, suc, ◌≡◌, Bool, true, false, Option, none, some, List, [], ◌∷◌,
  if◌then◌else◌, Str, lit, str_eq,
}
use goscratch.Base.Int.{ℤ, pos, negsuc}
use goscratch.Base.Int64.{add_64, mul_64, lt_64}
use goscratch.Base.Dict
use goscratch.Base.Dict.{Dict}
use goscratch.Apperr.{GoError, wrapped, Result, ok, err}

pub record Job : Type 0 where
  pub id : Str
  pub job_type : Str
  pub payload : Str
  pub attempts : ℕ
  pub max_retry : ℕ
  pub created_at : ℕ

-- NewJob, of the coded payload, a fresh id and the time
unfoldable pub new_job : Str → Result Str → Str → ℕ → Result Job
new_job job_type payload id now = elim payload [
  | err e ↦ err e
  | ok data' ↦ ok (record {
    id = id;
    job_type = job_type;
    payload = data';
    attempts = 0;
    max_retry = 3;
    created_at = now;
  })
]

unfoldable pub new_job_with_retry : Str → Result Str → Str → ℕ → ℕ → Result Job
unfolding new_job
new_job_with_retry job_type payload id now max_retry = elim (new_job job_type payload id now) [
  | err e ↦ err e
  | ok job ↦ ok (record job { max_retry = max_retry })
]

unfoldable pub increment_attempts : Job → Job
unfolding add_64
increment_attempts job = record job { attempts = add_64 job.attempts 1 }

unfoldable pub can_retry : Job → Bool
unfolding lt_64
can_retry job = lt_64 job.attempts job.max_retry

-- time.Duration(attempts * attempts) * time.Second
unfoldable pub retry_delay : ℕ → ℕ
unfolding mul_64
retry_delay attempts = mul_64 (mul_64 attempts attempts) 1000000000

-- the defaults of New
unfoldable pub effective_concurrency : ℤ → ℤ
effective_concurrency (pos zero) = pos 1
effective_concurrency (pos (suc n)) = pos (suc n)
effective_concurrency (negsuc n) = pos 1

unfoldable pub effective_queue_name : Str → Str
effective_queue_name name = if str_eq name (lit "") then lit "jobs" else name

-- a retry that waits for its delay
pub record Retry : Type 0 where
  pub delay : ℕ
  pub message : Str

-- publisher.go: `send` is the queue's Publish, of an exchange, a routing key and a message.
pub record Publisher : Type 0 where
  pub queue_name : Str
  pub exchange : Str

unfoldable pub new_publisher : Str → Str → Publisher
unfolding effective_queue_name
new_publisher queue_name exchange = record {
  queue_name = effective_queue_name queue_name;
  exchange = exchange;
}

module _ (encode : Job → Result Str) where
  module _ {Q : Type 0} (send : Str → Str → Str → Q → Option GoError × Q) where
    -- PublishRaw, and the end of Publish and PublishWithRetry
    unfoldable pub publish_job : Publisher → Job → Q → Option GoError × Q
    publish_job p job q = elim (encode job) [
      | err e ↦ (some (wrapped (lit "failed to encode job") e), q)
      | ok data' ↦
          let (failure, q') = send p.exchange p.queue_name data' q in
          elim failure [
            | none ↦ (none, q')
            | some e ↦ (some (wrapped (lit "failed to publish job") e), q')
          ]
    ]

    unfoldable pub publish_made : Publisher → Result Job → Q → Option GoError × Q
    unfolding publish_job
    publish_made p made q = elim made [
      | err e ↦ (some (wrapped (lit "failed to create job") e), q)
      | ok job ↦ publish_job p job q
    ]

    unfoldable pub publish : Publisher → Str → Result Str → Str → ℕ → Q → Option GoError × Q
    unfolding publish_made new_job
    publish p job_type payload id now = publish_made p (new_job job_type payload id now)

    unfoldable pub publish_with_retry :
        Publisher → Str → Result Str → Str → ℕ → ℕ → Q → Option GoError × Q
    unfolding publish_made new_job_with_retry
    publish_with_retry p job_type payload id now max_retry =
        publish_made p (new_job_with_retry job_type payload id now max_retry)

module _ (W : Type 0) where
  abbrev pub Handler : Type 0
  Handler = Job → W → (Option GoError × Job) × W

  pub record Worker : Type 0 where
    pub handlers : Dict Str Handler
    pub concurrency : ℤ
    pub queue_name : Str
    pub exchange : Str

  unfoldable pub new_worker : Str → Str → ℤ → Worker
  unfolding effective_concurrency effective_queue_name
  new_worker queue_name exchange concurrency = record {
    handlers = [];
    concurrency = effective_concurrency concurrency;
    queue_name = effective_queue_name queue_name;
    exchange = exchange;
  }

  unfoldable pub register_handler : Str → Handler → Worker → Worker
  unfolding Dict.put
  register_handler job_type handler w = record w { handlers = Dict.put job_type handler w.handlers }

  -- what handleMessage leaves: its error, the retry it scheduled, the world
  pub record Handled : Type 0 where
    pub error : Option GoError
    pub retry : Option Retry
    pub world : W

  module _ (decode : Str → Result Job) (encode : Job → Result Str) where
    -- retryJob up to the start of the goroutine; a job that cannot be coded is dropped
    unfoldable pub retry_job : Job → Option Retry
    unfolding retry_delay
    retry_job job = elim (encode job) [
      | err e ↦ none
      | ok data' ↦ some (record { delay = retry_delay job.attempts; message = data' })
    ]

    unfoldable pub handle_message : Worker → Str → W → Handled
    unfolding increment_attempts can_retry retry_job Dict.get
    handle_message w msg s = elim (decode msg) [
      | err e ↦ record { error = none; retry = none; world = s }
      | ok decoded ↦
          let job = increment_attempts decoded in
          elim (Dict.get job.job_type w.handlers) [
            | none ↦ record { error = none; retry = none; world = s }
            | some handler ↦
                let ((failure, left), s') = handler job s in
                elim failure [
                  | none ↦ record { error = none; retry = none; world = s' }
                  | some e ↦ record {
                    error = none;
                    retry = if can_retry left then retry_job left else none;
                    world = s';
                  }
                ]
          ]
    ]

    -- A message and the retries that follow from it, each handled when its delay has passed: the
    -- delays, and the world at the end; `none` when the fuel runs out.
    unfoldable pub retries : ℕ → Worker → Str → W → Option (List ℕ × W)
    unfolding handle_message
    retries zero w msg s = none
    retries (suc fuel) w msg s = elim (handle_message w msg s).retry [
      | none ↦ some ([], (handle_message w msg s).world)
      | some r ↦ elim (retries fuel w r.message (handle_message w msg s).world) [
        | none ↦ none
        | some (delays, s') ↦ some (r.delay ∷ delays, s')
      ]
    ]

  -- The goroutine of a retry: `cancelled` when the worker is shut down before the delay has passed,
  -- `closed` when it is before the publishing. An error of Publish is only logged.
  unfoldable pub fire_retry :
      {Q : Type 0}
      → (Str → Str → Str → Q → Option GoError × Q)
      → Bool
      → Bool
      → Worker
      → Retry
      → Q
      → Q
  fire_retry publish cancelled closed w r q =
      if cancelled then q else if closed then q else (publish w.exchange w.queue_name r.message q).1
