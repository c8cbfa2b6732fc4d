-- ===== src/Casbin/Watcher/Delivery.antt =====
-- What the watchers deliver: the messages in their order, as far as the channel holds them.
use goscratch.Base.{
  ℕ, zero, suc, ◌≤◌, ◌≡◌, refl, ap, ◌∙◌, inl, inr, arith, Bool-cases, Option, none, some, List, [],
  ◌∷◌, ◌++◌, ltb, length, take, length-append, take-short, Str, lit, str_eq,
}
use mathlib.Core.List.{append_assoc, append-nil}
use goscratch.Casbin.Adapter.{
  Enforcer, Adapter, WatcherOp, update_callback, on_operation, flush_after,
}
use goscratch.Casbin.Watcher.{
  MemoryWatcher, Change, policy_added, send, send_all, announce, dispatch, dispatch_times, listen,
  messages, encode_op, redis_announce, publish_all, memory_watcher_buf_size,
}

take-full : {A : Type 0} (n : ℕ) (xs ys : List A) → length xs ≡ n → take n (xs ++ ys) ≡ xs
take-full zero [] ys h = refl
take-full zero (x ∷ xs) ys h = absurd (omega arith)
take-full (suc n) [] ys h = absurd (omega arith)
take-full (suc n) (x ∷ xs) ys h = ap (λ t. x ∷ t) (take-full n xs ys (omega arith))

publish_all_up : (msgs : List Str) → publish_all (λ msg. none) msgs ≡ (none, msgs)
unfolding publish_all
publish_all_up [] = refl
publish_all_up (msg ∷ msgs) = rw (publish_all_up msgs) refl

module _ {S : Type 0} where
  abbrev watcher : List Str → Option (Str → S → S) → MemoryWatcher S
  watcher ch callback = record { ch = ch; callback = callback }

  send_all-take :
      (msgs ch : List Str) (c : Option (Str → S → S))
      → length ch ≤ memory_watcher_buf_size
      → send_all msgs (watcher ch c) ≡ watcher (take memory_watcher_buf_size (ch ++ msgs)) c
  unfolding send_all send
  send_all-take [] ch c fits = rw (append-nil ch, take-short memory_watcher_buf_size ch fits) refl
  send_all-take (msg ∷ msgs) ch c fits =
      elim (Bool-cases (ltb (length ch) memory_watcher_buf_size)) [
        | inl room ↦
            rw
              (
                room,
                send_all-take msgs (ch ++ (msg ∷ [])) c
                    (ground (arith, length-append ch (msg ∷ []))),
                append_assoc ch (msg ∷ []) msgs,
              )
              refl
        | inr full ↦
            let filled : length ch ≡ memory_watcher_buf_size = ground arith in
            rw
              (
                full,
                send_all-take msgs ch c fits,
                take-full memory_watcher_buf_size ch msgs filled,
                take-full memory_watcher_buf_size ch (msg ∷ msgs) filled,
              )
              refl
      ]

  drain :
      (ch : List Str) (c : Option (Str → S → S)) (s : S)
      → dispatch_times (length ch) (watcher ch c, s) ≡ (watcher [] c, listen c ch s)
  unfolding dispatch_times dispatch listen
  drain [] none s = refl
  drain [] (some f) s = refl
  drain (msg ∷ ch) none s = drain ch none s
  drain (msg ∷ ch) (some f) s = drain ch (some f) (f msg s)

  -- For a channel within its capacity: after a change is announced, and as many rounds of the
  -- goroutine as there are messages in the channel, the channel is empty and the callback has been
  -- run on the first 64 of the waiting and the announced messages, in order; later ones are lost.
  pub announce-delivered :
      (marshal : WatcherOp → Str) (change : Change) (w : MemoryWatcher S) (s : S)
      → length w.ch ≤ memory_watcher_buf_size
      → let w' = announce marshal change w in
        dispatch_times (length w'.ch) (w', s) ≡ (
          record w { ch = [] },
          listen w.callback (take memory_watcher_buf_size (w.ch ++ messages marshal change)) s,
        )
  unfolding announce
  announce-delivered marshal change w s fits =
      rw (send_all-take (messages marshal change) w.ch w.callback fits)
        (drain (take memory_watcher_buf_size (w.ch ++ messages marshal change)) w.callback s)

  -- A change of at most 64 messages that is announced on an empty channel reaches the callback as
  -- it does through a Redis that takes every message.
  pub memory_as_redis :
      (marshal : WatcherOp → Str) (change : Change) (c : Option (Str → S → S)) (s : S)
      → length (messages marshal change) ≤ memory_watcher_buf_size
      → let w = announce marshal change (record { ch = []; callback = c }) in
        (dispatch_times (length w.ch) (w, s)).1
        ≡ listen c (redis_announce marshal (λ msg. none) change).1 s
  unfolding redis_announce
  memory_as_redis marshal change c s fits =
      ap (λ t. t.1) (announce-delivered marshal change (watcher [] c) s (omega arith))
      ∙ rw
          (
            publish_all_up (messages marshal change),
            take-short memory_watcher_buf_size (messages marshal change) fits,
          )
          refl

-- When the message that is sent is unmarshalled to what was marshalled: whatever section a rule
-- that was added is of, "g" for the role of a user included, the adapter that listens adds it as a
-- policy rule.
pub any_section_as_policy :
    (E : Enforcer) (marshal : WatcherOp → Str) (decode : Str → Option WatcherOp) (sec ptype : Str)
    (params : List Str) (a : Adapter E)
    → let o : WatcherOp = record {
      op = lit "add_policy";
      sec = sec;
      ptype = ptype;
      params = params;
    } in
      decode (marshal o) ≡ some o
      → (dispatch (
        announce marshal
            (policy_added sec ptype params)
            (record { ch = []; callback = some (update_callback E decode) }),
        a,
      )).1
        ≡ flush_after E (E.add_policy params) a
unfolding dispatch announce send_all send messages encode_op update_callback on_operation lit
    flush_after str_eq
any_section_as_policy E marshal decode sec ptype params a read = rw (read, update_callback) refl
