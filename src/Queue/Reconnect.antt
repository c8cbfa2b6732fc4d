-- ===== src/Queue/Reconnect.antt =====
-- The attempts to reconnect a consumer: how many there are and how long they wait.
use goscratch.Base.{
  ℕ, zero, suc, ◌≤◌, ◌<◌, ◌≡◌, inl, inr, refl, ap, sym, subst, ◌∙◌, arith, Bool, true, false,
  Bool-cases, Option, none, some, Option-cases, List, [], ◌∷◌, if◌then◌else◌, length, All, Str,
}
use goscratch.Base.Int64.{lt_64, mul_64}
use goscratch.Apperr.{GoError, Result, ok, err, Result-cases}
use goscratch.Queue.{
  Amqp, State, next_backoff, reopen, redial, open_consumer, reconnect, reconnect_consumer,
}

next_backoff-bounds :
    (delay ceiling : ℕ)
    → 0 < delay
    → delay ≤ ceiling
    → ceiling < 4611686018427387904
    → (0 < next_backoff delay ceiling) × (next_backoff delay ceiling ≤ ceiling)
unfolding next_backoff lt_64 mul_64
next_backoff-bounds delay ceiling positive small fits = (ground arith, ground arith)

abbrev Between : ℕ → ℕ → Type 0
Between ceiling d = (0 < d) × (d ≤ ceiling)

module _ (M : Amqp) where
  -- what an attempt leaves of the adapter's settings
  abbrev pub Kept : State M → State M → Type 0
  Kept st st' = (st'.0.opts ≡ st.0.opts) × (st'.0.closed ≡ st.0.closed)

  pub open_consumer-keeps : (name : Str) (st : State M) → (open_consumer M name st).1.0 ≡ st.0
  unfolding open_consumer
  open_consumer-keeps name (q, w) = elim (Bool-cases (M.is_closed q.conn w)) [
    | inl down ↦ rw down refl
    | inr up ↦
        let (opened, w₁) = M.channel q.conn w in
        elim (Result-cases opened) [
          | inr (e, failed) ↦ rw (up, failed) refl
          | inl (ch, made) ↦
              let (unset, w₂) = M.qos q.opts.prefetch_count ch w₁ in
              elim (Option-cases unset) [
                | inr (e, failed) ↦ rw (up, made, failed) refl
                | inl fine ↦ elim (Option-cases (M.consume name ch w₂).0) [
                  | inr (e, failed) ↦ rw (up, made, fine, failed) refl
                  | inl done ↦ rw (up, made, fine, done) refl
                ]
              ]
        ]
  ]

  redial-keeps : (st : State M) → Kept st (redial M st).1
  unfolding redial
  redial-keeps (q, w) = elim (Result-cases (M.dial q.url w).0) [
    | inr (e, failed) ↦ rw (failed, redial) (refl, refl)
    | inl (conn, made) ↦ elim (Result-cases (M.channel conn (M.dial q.url w).1).0) [
      | inr (e, failed) ↦ rw (made, failed, redial) (refl, refl)
      | inl (ch, opened) ↦ rw (made, opened, redial) (refl, refl)
    ]
  ]

  reopened :
      (b : Bool) (name : Str) (st : State M)
      → Kept st
          (if b
            then (let (failure, st') = redial M st in
                elim failure [ some e ↦ (err e, st') | none ↦ open_consumer M name st' ])
            else open_consumer M name st).1
  reopened false name st =
      let same = open_consumer-keeps name st in (ap (λ t. t.opts) same, ap (λ t. t.closed) same)
  reopened true name st =
      let kept = redial-keeps st in
      let same = open_consumer-keeps name (redial M st).1 in
      elim (Option-cases (redial M st).0) [
        | inr (e, failed) ↦ rw failed kept
        | inl done ↦ rw done (ap (λ t. t.opts) same ∙ kept.0, ap (λ t. t.closed) same ∙ kept.1)
      ]

  pub reopen-keeps : (name : Str) (st : State M) → Kept st (reopen M name st).1
  unfolding reopen
  reopen-keeps name st = reopened (M.is_closed st.0.conn st.1) name st

  -- what is claimed of an outcome and its waits, when `Alive` says that the context does not end
  abbrev Bounded : Type 0 → ℕ → ℕ → (Result M.Chan × State M) × List ℕ → Type 0
  Bounded Alive ceiling left r =
      All (Between ceiling) r.1
      × (length r.1 ≤ left)
      × (Alive → (e : GoError) → r.0.0 ≡ err e → length r.1 ≡ left)

  attempt-Bounded :
      (Alive : Type 0) (stop : Option GoError) (opened : Result M.Chan) (st st' : State M)
      (ceiling delay left : ℕ) (rest : (Result M.Chan × State M) × List ℕ)
      → Between ceiling delay
      → (Alive → stop ≡ none)
      → Bounded Alive ceiling left rest
      → Bounded Alive ceiling (suc left) (elim stop [
        | some e ↦ ((err e, st), [])
        | none ↦ elim opened [
          | ok ch ↦ ((ok ch, st'), delay ∷ [])
          | err e ↦ (rest.0, delay ∷ rest.1)
        ]
      ])
  attempt-Bounded Alive (some e) opened st st' ceiling delay left rest b alive h =
      (tt, omega arith, λ a e' failed. absurd (ground (arith, alive a)))
  attempt-Bounded Alive none (ok ch) st st' ceiling delay left rest b alive h =
      ((b, tt), omega arith, λ a e failed. absurd (ground arith))
  attempt-Bounded Alive none (err e) st st' ceiling delay left rest b alive h =
      ((b, h.0), omega (arith, h.1), λ a e' failed. omega (arith, h.2 a e' failed))

  reconnect-Bounded :
      (ended : ℕ → Option GoError) (name : Str) (left attempt delay : ℕ) (st : State M)
      → 0 < delay
      → delay ≤ st.0.opts.reconnect_max_delay
      → st.0.opts.reconnect_max_delay < 4611686018427387904
      → Bounded
          ((i : ℕ) → ended i ≡ none)
          st.0.opts.reconnect_max_delay
          left
          (reconnect M ended name left attempt delay st)
  unfolding reconnect
  reconnect-Bounded ended name zero attempt delay st positive small fits =
      (tt, omega arith, λ never e h. refl)
  reconnect-Bounded ended name (suc left) attempt delay st positive small fits =
      let st' = (reopen M name st).1 in
      let ceiling = st.0.opts.reconnect_max_delay in
      let same : st'.0.opts.reconnect_max_delay ≡ ceiling =
        ap (λ o. o.reconnect_max_delay) (reopen-keeps name st).0 in
      let next = next_backoff-bounds delay ceiling positive small fits in
      let rest = reconnect M ended name left (suc attempt) (next_backoff delay ceiling) st' in
      attempt-Bounded ((i : ℕ) → ended i ≡ none) (ended attempt) (reopen M name st).0 st st' ceiling
        delay left rest (positive, small) (λ never. never attempt)
        (subst (λ c. Bounded ((i : ℕ) → ended i ≡ none) c left rest) same
          (reconnect-Bounded ended name left (suc attempt) (next_backoff delay ceiling) st' next.0
            (subst (λ c. next_backoff delay ceiling ≤ c) (sym same) next.1)
            (subst (λ c. c < 4611686018427387904) (sym same) fits)))

  -- For a base delay that is positive and at most the greatest delay, which is below 2 ^ 62
  -- nanoseconds, so that a doubled delay does not overflow: reconnecting a consumer waits at most
  -- MaxReconnectTries times, each time longer than 0 and at most the greatest delay; and when the
  -- context does not end, it gives up only after MaxReconnectTries waits.
  pub reconnect_consumer-bounds :
      (ended : ℕ → Option GoError) (name : Str) (st : State M)
      → 0 < st.0.opts.reconnect_base_delay
      → st.0.opts.reconnect_base_delay ≤ st.0.opts.reconnect_max_delay
      → st.0.opts.reconnect_max_delay < 4611686018427387904
      → let (outcome, waits) = reconnect_consumer M ended name st in
        All (λ d. (0 < d) × (d ≤ st.0.opts.reconnect_max_delay)) waits
        × (length waits ≤ st.0.opts.max_reconnect_tries)
        × (((i : ℕ) → ended i ≡ none)
            → (e : GoError) → outcome.0 ≡ err e
            → length waits ≡ st.0.opts.max_reconnect_tries)
  unfolding reconnect_consumer
  reconnect_consumer-bounds ended name st =
      reconnect-Bounded ended name st.0.opts.max_reconnect_tries 1 st.0.opts.reconnect_base_delay st
