-- ===== src/Worker/Retries.antt =====
-- How often a message is retried, and when.
use goscratch.Base.{
  str_eq_instance, ℕ, zero, suc, ◌*◌, ◌-◌, ◌<◌, ◌≤◌, ◌≡◌, ◌⊎◌, refl, ap, ◌∙◌, true, none, some,
  List, [], ◌∷◌, arith, length, take, ◌++◌, Str, Option-cases, Bool-cases, inl, inr,
}
use goscratch.Base.Int64.{mul_64, add_64-exact, lt_64-exact}
use goscratch.Base.Dict
use goscratch.Base.Dict.{Dict}
use goscratch.Apperr.{Result, ok, Result-cases}
use goscratch.Worker.{
  Job, Retry, Worker, Handler, increment_attempts, can_retry, retry_delay, retry_job,
  handle_message, retries, new_job, Publisher, publish, publish_job,
}

-- the waits before the attempts from n on, n² seconds each, in nanoseconds
unfoldable pub squares_from : ℕ → ℕ → List ℕ
squares_from n zero = []
squares_from n (suc k) = n * n * 1000000000 ∷ squares_from (suc n) k

square_bound : (n : ℕ) → n < 96038 → n * n ≤ 96037 * 96037
square_bound n h = grind arith

retry_delay-exact : (n : ℕ) → n < 96038 → retry_delay n ≡ n * n * 1000000000
unfolding retry_delay mul_64
retry_delay-exact n h = omega (arith, square_bound n h)

module _ (W : Type 0) (decode : Str → Result Job) (encode : Job → Result Str) where
  -- what is coded is decoded to the same job
  abbrev pub RoundTrips : Type 0
  RoundTrips = (job : Job) (msg : Str) → encode job ≡ ok msg → decode msg ≡ ok job

  -- The handlers leave the counters of the job alone.
  abbrev pub KeepsCounters : Worker W → Type 0
  KeepsCounters w =
      (t : Str) (h : Handler W) (job : Job) (s : W)
      → Dict.get t w.handlers ≡ some h
      → ((h job s).0.1.attempts ≡ job.attempts) × ((h job s).0.1.max_retry ≡ job.max_retry)

  -- a retry of a job that was decoded with the counters a and m
  abbrev pub Follows : ℕ → ℕ → Retry → Type 0
  Follows a m r =
      (suc a < m)
      × (r.delay ≡ retry_delay (suc a))
      × ((job : Job) × (decode r.message ≡ ok job) × (job.attempts ≡ suc a) × (job.max_retry ≡ m))

  retry_job-Follows :
      (codec : RoundTrips) (a m : ℕ) (job : Job) (r : Retry)
      → suc a < m
      → job.attempts ≡ suc a
      → job.max_retry ≡ m
      → retry_job W decode encode job ≡ some r
      → Follows a m r
  unfolding retry_job
  retry_job-Follows codec a m job r left at_a at_m made = elim (Result-cases (encode job)) [
    | inr (e, failed) ↦ absurd (ground arith)
    | inl (msg, coded) ↦
        let delay : r.delay ≡ retry_delay (suc a) = ground arith in
        let text : r.message ≡ msg = ground arith in
        (left, delay, (job, rw text (codec job msg coded), at_a, at_m))
  ]

  incremented :
      (job : Job)
      → job.attempts < 9223372036854775807
      → (increment_attempts job).attempts ≡ suc job.attempts
  unfolding increment_attempts
  incremented job small = omega (arith, add_64-exact job.attempts 1)

  may_retry :
      (job : Job) (n m : ℕ)
      → job.attempts ≡ n
      → job.max_retry ≡ m
      → n < 9223372036854775808
      → m < 9223372036854775808
      → can_retry job ≡ true
      → n < m
  unfolding can_retry
  may_retry job n m at_n at_m small small' may = ground (arith, lt_64-exact n m small small')

  -- One handling of a message: no error is returned, and a retry that is scheduled follows.
  handle_message-Follows :
      (codec : RoundTrips) (w : Worker W) (keeps : KeepsCounters w) (msg : Str) (s : W) (job : Job)
      → decode msg ≡ ok job
      → job.attempts < 9223372036854775807
      → job.max_retry < 9223372036854775808
      → ((handle_message W decode encode w msg s).retry ≡ none)
        ⊎ ((r : Retry) × ((handle_message W decode encode w msg s).retry ≡ some r)
            × Follows job.attempts job.max_retry r)
  unfolding handle_message increment_attempts can_retry
  handle_message-Follows codec w keeps msg s job decoded small small' =
      let next = increment_attempts job in
      elim (Option-cases (Dict.get job.job_type w.handlers)) [
        | inl unknown ↦ inl (rw (decoded, unknown, handle_message))
        | inr (handler, known) ↦
            let left = (handler next s).0.1 in
            let (at_a, at_m) = keeps job.job_type handler next s known in
            let counted : left.attempts ≡ suc job.attempts = at_a ∙ incremented job small in
            elim (Option-cases (handler next s).0.0) [
              | inl success ↦ inl (rw (decoded, known, success, handle_message))
              | inr (e, failure) ↦ elim (Bool-cases (can_retry left)) [
                | inr exhausted ↦ inl (rw (decoded, known, failure, exhausted, handle_message))
                | inl may ↦ elim (Option-cases (retry_job W decode encode left)) [
                  | inl uncoded ↦ inl (rw (decoded, known, failure, may, uncoded, handle_message))
                  | inr (r, made) ↦
                      let below : suc job.attempts < job.max_retry =
                        may_retry left (suc job.attempts) job.max_retry counted at_m (omega arith)
                          small' may in
                      inr (
                        r,
                        rw (decoded, known, failure, may, made, handle_message),
                        retry_job-Follows codec job.attempts job.max_retry left r below counted at_m
                            made,
                      )
                ]
              ]
            ]
      ]

  shaped :
      {d : ℕ} (n : ℕ) (delays : List ℕ)
      → d ≡ n * n * 1000000000
      → delays ≡ squares_from (suc n) (length delays)
      → d ∷ delays ≡ squares_from n (suc (length delays))
  unfolding squares_from
  shaped n delays wait shape = cc (wait, shape)

  ends :
      (codec : RoundTrips) (w : Worker W) (keeps : KeepsCounters w) (fuel a m : ℕ) (msg : Str)
      (s : W) (job : Job)
      → decode msg ≡ ok job
      → job.attempts ≡ a
      → job.max_retry ≡ m
      → a < 9223372036854775807
      → m ≤ 96038
      → m - a < fuel
      → (delays : List ℕ) × (s' : W) × (retries W decode encode fuel w msg s ≡ some (delays, s'))
        × (length delays ≤ m - suc a)
        × (delays ≡ squares_from (suc a) (length delays))
  unfolding retries squares_from
  ends codec w keeps zero a m msg s job decoded at_a at_m small bound enough = absurd (omega arith)
  ends codec w keeps (suc fuel) a m msg s job decoded at_a at_m small bound enough =
      elim (handle_message-Follows codec w keeps msg s job decoded (omega arith) (omega arith)) [
        | inl done ↦ (
          [],
          (handle_message W decode encode w msg s).world,
          rw (done, retries),
          omega arith,
          refl,
        )
        | inr (r, again, (left, delay, (next, decoded', at_a', at_m'))) ↦
            let (delays, s', run, short, shape) =
              ends codec w keeps fuel (suc a) m r.message
                (handle_message W decode encode w msg s).world next decoded' (at_a' ∙ ap suc at_a)
                (at_m' ∙ at_m) (omega arith) bound (omega arith) in
            (
              r.delay ∷ delays,
              s',
              rw (again, run, retries),
              omega arith,
              shaped (suc a) delays
                  (delay
                    ∙ ap (λ n. retry_delay (suc n)) at_a
                    ∙ retry_delay-exact (suc a) (omega arith))
                  shape,
            )
      ]

  first_squares :
      (delays : List ℕ)
      → length delays ≤ 2
      → delays ≡ squares_from 1 (length delays)
      → delays ≡ take (length delays) (1000000000 ∷ 4000000000 ∷ [])
  unfolding squares_from
  first_squares [] short shape = refl
  first_squares (d ∷ []) short shape = shape
  first_squares (d ∷ e ∷ []) short shape = shape
  first_squares (d ∷ e ∷ f ∷ delays) short shape = absurd (omega arith)

  -- For a coder that round-trips and handlers that leave the counters of their job alone: whatever
  -- the handlers do, a message whose job has made `a` attempts of at most `m` (up to 96,038) is
  -- retried at most m - a - 1 times, so the retries come to an end (fuel m + 1 is enough), and the
  -- wait before the n-th attempt is n² seconds, without overflow.
  pub retries_end :
      (codec : RoundTrips) (w : Worker W) (keeps : KeepsCounters w) (msg : Str) (s : W) (job : Job)
      → decode msg ≡ ok job
      → job.attempts < 9223372036854775807
      → job.max_retry ≤ 96038
      → (delays : List ℕ) × (s' : W) × (retries W decode encode (suc job.max_retry) w msg s
          ≡ some (delays, s'))
        × (length delays ≤ job.max_retry - suc job.attempts)
        × (delays ≡ squares_from (suc job.attempts) (length delays))
  retries_end codec w keeps msg s job decoded small bound =
      ends codec w keeps (suc job.max_retry) job.attempts job.max_retry msg s job decoded refl refl
        small bound (omega arith)

  -- A job that Publish reports as published is in the queue as a message, and the worker that gets
  -- this message retries the job at most twice, after 1 second and after 4 seconds more.
  pub published_job_waits :
      (codec : RoundTrips) (w : Worker W) (keeps : KeepsCounters w) (s : W) (p : Publisher)
      (job_type id : Str) (payload : Result Str) (now : ℕ) (q q' : List Str)
      → publish encode (λ e n m q. (none, q ++ m ∷ [])) p job_type payload id now q ≡ (none, q')
      → (msg : Str) × (q' ≡ q ++ msg ∷ [])
        × (delays : List ℕ) × (s' : W) × (retries W decode encode 4 w msg s ≡ some (delays, s'))
        × (delays ≡ take (length delays) (1000000000 ∷ 4000000000 ∷ []))
  unfolding publish publish_job new_job
  published_job_waits codec w keeps s p job_type id payload now q q' h =
      elim (Result-cases payload) [
        | inr (e, failed) ↦ absurd (ground arith)
        | inl (body, made) ↦
            let job : Job = record {
              id = id;
              job_type = job_type;
              payload = body;
              attempts = 0;
              max_retry = 3;
              created_at = now;
            } in
            elim (Result-cases (encode job)) [
              | inr (e, failed) ↦ absurd (ground arith)
              | inl (msg, coded) ↦
                  let (delays, s', run, short, shape) =
                    retries_end codec w keeps msg s job (codec job msg coded) (omega arith)
                      (omega arith) in
                  (msg, ground arith, delays, s', run, first_squares delays short shape)
            ]
      ]
