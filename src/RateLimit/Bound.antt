-- ===== src/RateLimit/Bound.antt =====
-- The limit itself: never more than the maximum of accepted requests in a window.
use goscratch.Base.{
  nat_eq, str_eq_instance, ℕ, ◌+◌, ◌≤◌, ◌≡◌, sym, ap, ◌∙◌, subst, Bool, List, [], ◌∷◌, ◌++◌, arith,
  if◌then◌else◌, ltb, Str, str_eq, str_eq_iff, ltb→lt, length, length-filter_by, length-append,
  filter_by-append, Bool-cases, inl, inr, if_ind,
}
use goscratch.RateLimit.{Windows, Verdict, allow, clean_up, clean_loop, after_window_start}
use goscratch.RateLimit.Window.{Ledger, Tracks, recent, spec_allow, allow-Tracks, recent-recent}
use goscratch.RateLimit.Janitor.{
  request, tick, Timeline, IsTimeline, later-Tracks, clean_loop-Tracks, empty-Tracks,
}

-- the time of the last event
abbrev pub end_time : ℕ → Timeline → ℕ
end_time t [] = t
end_time t ((now, e) ∷ rest) = end_time now rest

abbrev accept : Bool → ℕ → Str → Ledger → Ledger
accept allowed now key ledger =
    if allowed then (λ k. if str_eq key k then ledger k ++ now ∷ [] else ledger k) else ledger

module _ (max_reqs window : ℕ) where
  -- the times of the requests that the limiter accepted, by key
  pub accepted : Timeline → Windows → Ledger → Ledger
  accepted [] windows ledger = ledger
  accepted ((now, request key) ∷ rest) windows ledger =
      let (verdict, windows') = allow now key max_reqs window windows in
      accepted rest windows' (accept verdict.allowed now key ledger)
  accepted ((now, tick) ∷ rest) windows ledger = accepted rest (clean_up now windows) ledger

  abbrev IsBounded : ℕ → Ledger → Type 0
  IsBounded t ledger =
      (key : Str) (now : ℕ) → t ≤ now → length (recent now window (ledger key)) ≤ max_reqs

  recent_shrinks :
      (now later : ℕ) (ts : List ℕ)
      → now ≤ later
      → length (recent later window ts) ≤ length (recent now window ts)
  recent_shrinks now later ts le = omega (
    arith,
    length-filter_by (after_window_start later window) (recent now window ts),
    ap (λ (l : List ℕ). length l) (recent-recent now later window ts le),
  )

  recent_one_more :
      (later now : ℕ) (ts : List ℕ)
      → length (recent later window (ts ++ now ∷ [])) ≤ length (recent later window ts) + 1
  recent_one_more later now ts = omega (
    arith,
    ap (λ (l : List ℕ). length l)
        (filter_by-append (after_window_start later window) ts (now ∷ [])),
    length-append (recent later window ts) (recent later window (now ∷ [])),
    length-filter_by (after_window_start later window) (now ∷ []),
  )

  spec_allow-IsBounded :
      (t now : ℕ) (key : Str) (ledger : Ledger)
      → t ≤ now
      → IsBounded t ledger
      → IsBounded now (spec_allow now key max_reqs window ledger).1
  spec_allow-IsBounded t now key ledger le h j later le' =
      elim (Bool-cases (ltb (length (recent now window (ledger key))) max_reqs)) [
        | inr full ↦ rw full (h j later (omega arith))
        | inl room ↦ rw room (
            if_ind (λ (ts : List ℕ). length (recent later window ts) ≤ max_reqs) (str_eq key j)
              (λ same. omega (
                arith,
                recent_one_more later now (ledger j),
                recent_shrinks now later (ledger j) le',
                ap (λ (k : Str). length (recent now window (ledger k))) ((str_eq_iff key j).0 same),
                ltb→lt _ _ room,
              ))
              λ _. h j later (omega arith))
      ]

  spec_allow-accept :
      (now : ℕ) (key : Str) (ledger : Ledger)
      → let (verdict, ledger') = spec_allow now key max_reqs window ledger in
        ledger' ≡ accept verdict.allowed now key ledger
  spec_allow-accept now key ledger =
      elim (Bool-cases (ltb (length (recent now window (ledger key))) max_reqs)) [
        | inl room ↦ rw room
        | inr full ↦ rw full
      ]

  IsBounded-from :
      (events : Timeline) (t : ℕ) (windows : Windows) (ledger : Ledger)
      → IsTimeline t events
      → Tracks window t ledger windows
      → IsBounded t ledger
      → IsBounded (end_time t events) (accepted events windows ledger)
  unfolding accepted clean_up
  IsBounded-from [] t windows ledger order h b = b
  IsBounded-from ((now, request key) ∷ rest) t windows ledger order h b =
      let (same, h') = allow-Tracks now t key max_reqs window ledger windows order.0 h in
      let b' = spec_allow-IsBounded t now key ledger order.0 b in
      let e =
        spec_allow-accept now key ledger
        ∙ ap (λ (v : Verdict). accept v.allowed now key ledger) (sym same) in
      IsBounded-from rest now (allow now key max_reqs window windows).1
        (accept (allow now key max_reqs window windows).0.allowed now key ledger) order.1
        (subst (λ l. Tracks window now l (allow now key max_reqs window windows).1) e h')
        (subst (IsBounded now) e b')
  IsBounded-from ((now, tick) ∷ rest) t windows ledger order h b =
      IsBounded-from rest now (clean_loop now windows windows) ledger order.1
        (clean_loop-Tracks window now ledger windows windows
          (later-Tracks window t now ledger windows order.0 h))
        (λ key later le. b key later (omega (arith, order.0)))

  -- For every maximum and window, and every sequence of requests of any keys and janitor ticks at
  -- times that do not go back: at the end, and at every later time, the requests of a key that
  -- the limiter has accepted in the window that ends then are at most the maximum.
  pub accepted_bounded :
      (events : Timeline) (t : ℕ) (key : Str) (now : ℕ)
      → IsTimeline t events
      → end_time t events ≤ now
      → length (recent now window (accepted events [] (λ k. []) key)) ≤ max_reqs
  accepted_bounded events t key now order le =
      IsBounded-from events t [] (λ k. []) order (empty-Tracks window t)
        (λ k later le'. omega (arith, length-filter_by (after_window_start later window) [])) key
        now le
