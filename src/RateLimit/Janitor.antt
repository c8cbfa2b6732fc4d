-- ===== src/RateLimit/Janitor.antt =====
-- Whole histories of the limiter: requests of any keys, and rounds of the janitor in between.
use goscratch.Base.{
  nat_eq, str_eq_instance, ℕ, ◌+◌, ◌≤◌, ◌<◌, ◌≡◌, refl, ap, some, List, [], ◌∷◌, arith,
  if◌then◌else◌, ltb, Str, str_eq, str_eq_iff, filter_by, All, All-weaken, Bool-cases, Option-cases,
  inl, inr, if_ind,
}
use goscratch.Base.Dict
use goscratch.RateLimit.{SlidingWindow, Windows, Verdict, window_of, allow, clean_loop, clean_up}
use goscratch.RateLimit.Window.{
  Ledger, Tracks, recent, spec_allow, allow-Tracks, window_of-remove, recent-expired,
}

pub later-Tracks :
    (window t now : ℕ) (ledger : Ledger) (windows : Windows)
    → t ≤ now
    → Tracks window t ledger windows
    → Tracks window now ledger windows
later-Tracks window t now ledger windows le h = record {
  agrees = λ key later le'. h.agrees key later (omega arith);
  past = λ key.
      All-weaken (λ x. x ≤ t) (λ x. x ≤ now) (λ x p. omega arith) (window_of key windows).timestamps
        (h.past key);
  expires = h.expires;
}

-- deleting a window whose expiry has passed loses nothing that a later request would count
nothing_recent : (now window : ℕ) → recent now window [] ≡ []
unfolding filter_by
nothing_recent now window = refl

remove-Tracks :
    (window now : ℕ) (ledger : Ledger) (windows : Windows) (key : Str)
    → Tracks window now ledger windows
    → (window_of key windows).expires_at < now
    → Tracks window now ledger (Dict.remove key windows)
remove-Tracks window now ledger windows key h gone = record {
  agrees = λ j later le'. elim (Bool-cases (str_eq key j)) [
    | inl same ↦
        let expired : recent later window (window_of key windows).timestamps ≡ [] =
          recent-expired later window (window_of key windows).expires_at
            (window_of key windows).timestamps (h.expires key) (omega arith) in
        ground (
          arith,
          window_of-remove key j windows,
          nothing_recent later window,
          ap ledger ((str_eq_iff key j).0 same),
          h.agrees key later le',
        )
    | inr other ↦ ground (arith, window_of-remove key j windows, h.agrees j later)
  ];
  past = λ j. rw (window_of-remove key j windows) (
      if_ind (λ (w : SlidingWindow). All (λ x. x ≤ now) w.timestamps) (str_eq key j) (λ _. tt)
        λ _. h.past j);
  expires = λ j. rw (window_of-remove key j windows) (
      if_ind (λ (w : SlidingWindow). All (λ x. x + window ≤ w.expires_at) w.timestamps)
        (str_eq key j) (λ _. tt) λ _. h.expires j);
}

clean_round-Tracks :
    (window now : ℕ) (ledger : Ledger) (windows : Windows) (key : Str) (sw : SlidingWindow)
    → Tracks window now ledger windows
    → Dict.get key windows ≡ some sw
    → Tracks window now ledger (if ltb sw.expires_at now then Dict.remove key windows else windows)
unfolding window_of
clean_round-Tracks window now ledger windows key sw h found =
    if_ind (Tracks window now ledger) (ltb sw.expires_at now)
      (λ gone. remove-Tracks window now ledger windows key h (ground arith)) (λ _. h)

pub clean_loop-Tracks :
    (window now : ℕ) (ledger : Ledger) (entries windows : Windows)
    → Tracks window now ledger windows
    → Tracks window now ledger (clean_loop now entries windows)
unfolding clean_loop
clean_loop-Tracks window now ledger [] windows h = h
clean_loop-Tracks window now ledger ((key, x) ∷ rest) windows h =
    elim (Option-cases (Dict.get key windows)) [
      | inl absent ↦ rw (absent, clean_loop) (clean_loop-Tracks window now ledger rest windows h)
      | inr (sw, found) ↦
          rw (found, clean_loop)
            (clean_loop-Tracks window now ledger rest
              (if ltb sw.expires_at now then Dict.remove key windows else windows)
              (clean_round-Tracks window now ledger windows key sw h found))
    ]

-- What happens at a time: a request of a key, or a tick of the janitor.
pub data Event : Type 0 where
  request : Str → Event
  tick : Event

abbrev pub Timeline : Type 0
Timeline = List (ℕ × Event)

-- the clock does not go back
abbrev pub IsTimeline : ℕ → Timeline → Type 0
IsTimeline t [] = Unit
IsTimeline t ((now, e) ∷ rest) = (t ≤ now) × IsTimeline now rest

pub empty-Tracks : (window t : ℕ) → Tracks window t (λ key. []) []
unfolding window_of Dict.get
empty-Tracks window t = record {
  agrees = λ key now le. refl;
  past = λ key. tt;
  expires = λ key. tt;
}

module _ (max_reqs window : ℕ) where
  unfoldable pub run : Timeline → Windows → List Verdict
  run [] windows = []
  run ((now, request key) ∷ rest) windows =
      let (verdict, windows') = allow now key max_reqs window windows in verdict ∷ run rest windows'
  run ((now, tick) ∷ rest) windows = run rest (clean_up now windows)

  -- the specification has no janitor
  pub spec_run : Timeline → Ledger → List Verdict
  spec_run [] ledger = []
  spec_run ((now, request key) ∷ rest) ledger =
      let (verdict, ledger') = spec_allow now key max_reqs window ledger in
      verdict ∷ spec_run rest ledger'
  spec_run ((now, tick) ∷ rest) ledger = spec_run rest ledger

  run-Tracks :
      (events : Timeline) (t : ℕ) (ledger : Ledger) (windows : Windows)
      → IsTimeline t events
      → Tracks window t ledger windows
      → run events windows ≡ spec_run events ledger
  unfolding run spec_run clean_up
  run-Tracks [] t ledger windows order h = refl
  run-Tracks ((now, request key) ∷ rest) t ledger windows order h =
      let (same, h') = allow-Tracks now t key max_reqs window ledger windows order.0 h in
      let tail =
        run-Tracks rest now (spec_allow now key max_reqs window ledger).1
          (allow now key max_reqs window windows).1 order.1 h' in
      λ i. same i ∷ tail i
  run-Tracks ((now, tick) ∷ rest) t ledger windows order h =
      run-Tracks rest now ledger (clean_loop now windows windows) order.1 (
        clean_loop-Tracks window now ledger windows windows
          (later-Tracks window t now ledger windows order.0 h))

  -- For every maximum and window, and every sequence of requests and janitor ticks at times that
  -- do not go back: the limiter gives the verdicts (allowed, remaining and reset time) that come
  -- from counting all accepted requests of the key in the window that ends now. So forgetting old
  -- timestamps and deleting expired windows is never seen.
  pub run-spec_run :
      (events : Timeline) (t : ℕ)
      → IsTimeline t events
      → run events [] ≡ spec_run events (λ key. [])
  run-spec_run events t order = run-Tracks events t (λ key. []) [] order (empty-Tracks window t)
