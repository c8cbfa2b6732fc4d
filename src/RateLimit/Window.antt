-- ===== src/RateLimit/Window.antt =====
-- The limiter against its specification, which never forgets an accepted request: a ledger holds,
-- for every key, the times of all accepted requests, and a request is accepted if fewer than the
-- maximum of them lie in the window that ends now.
use goscratch.Base.{
  nat_eq, str_eq_instance, ℕ, ◌+◌, ◌-◌, ◌≤◌, ◌<◌, ◌≡◌, refl, sym, ap, ◌∙◌, Bool, true, false, List,
  [], ◌∷◌, ◌++◌, arith, if◌then◌else◌, ltb, leb, Str, str_eq, str_eq_iff, length, filter_by,
  filter_by-append, All, filter_by-implied, All-filter_by, All-append, All-weaken, Bool-cases, inl,
  inr, if_ind,
}
use goscratch.Base.Dict
use goscratch.Base.Dict.{Dict, get-put, get-remove}
use goscratch.RateLimit.{SlidingWindow, Windows, Verdict, after_window_start, window_of, allow}

abbrev pub Ledger : Type 0
Ledger = Str → List ℕ

-- the accepted requests of a key in the window that ends now
abbrev pub recent : ℕ → ℕ → List ℕ → List ℕ
recent now window = filter_by (after_window_start now window)

abbrev pub spec_allow : ℕ → Str → ℕ → ℕ → Ledger → Verdict × Ledger
spec_allow now key max_reqs window ledger =
    let count = length (recent now window (ledger key)) in
    if ltb count max_reqs
    then (
      record { allowed = true; remaining = max_reqs - count - 1; reset_at = now + window },
      λ k. if str_eq key k then ledger k ++ now ∷ [] else ledger k,
    )
    else (record { allowed = false; remaining = 0; reset_at = now + window }, ledger)

pub recent-recent :
    (now later window : ℕ) (ts : List ℕ)
    → now ≤ later
    → recent later window (recent now window ts) ≡ recent later window ts
unfolding after_window_start
recent-recent now later window ts h =
    filter_by-implied (after_window_start later window) (after_window_start now window)
      (λ x p. ground arith) ts

-- no timestamp is recent once the expiry has passed
pub recent-expired :
    (now window expiry : ℕ) (ts : List ℕ)
    → All (λ x. x + window ≤ expiry) ts
    → expiry < now
    → recent now window ts ≡ []
unfolding filter_by after_window_start
recent-expired now window expiry [] h e = refl
recent-expired now window expiry (x ∷ ts) h e =
    ground (arith, recent-expired now window expiry ts h.1 e)

-- At time t the limiter agrees with the ledger on every window that ends at t or later, no
-- timestamp is later than t, and each is forgotten only after it has left the window.
pub record Tracks (window t : ℕ) (ledger : Ledger) (windows : Windows) : Type 0 where
  pub agrees :
      (key : Str) (now : ℕ)
      → t ≤ now
      → recent now window (window_of key windows).timestamps ≡ recent now window (ledger key)
  pub past : (key : Str) → All (λ x. x ≤ t) (window_of key windows).timestamps
  pub expires :
      (key : Str)
      → All
          (λ x. x + window ≤ (window_of key windows).expires_at)
          (window_of key windows).timestamps

pub window_of-put :
    (key j : Str) (sw : SlidingWindow) (windows : Windows)
    → window_of j (Dict.put key sw windows) ≡ (if str_eq key j then sw else window_of j windows)
unfolding window_of
window_of-put key j sw windows = ground (arith, get-put key j sw windows)

abbrev empty_window : SlidingWindow
empty_window = record { timestamps = []; expires_at = 0 }

pub window_of-remove :
    (key j : Str) (windows : Windows)
    → window_of j (Dict.remove key windows)
      ≡ (if str_eq key j then empty_window else window_of j windows)
unfolding window_of
window_of-remove key j windows = ground (arith, get-remove key j windows)

-- replacing one key's window by one that tracks its ledger entry
put-Tracks :
    (window t now : ℕ) (ledger ledger' : Ledger) (windows : Windows) (key : Str) (ts entry : List ℕ)
    → t ≤ now
    → Tracks window t ledger windows
    → ((k : Str) → ledger' k ≡ (if str_eq key k then entry else ledger k))
    → ((later : ℕ) → now ≤ later → recent later window ts ≡ recent later window entry)
    → All (λ x. x ≤ now) ts
    → Tracks window now ledger'
        (Dict.put key (record { timestamps = ts; expires_at = now + window }) windows)
put-Tracks window t now ledger ledger' windows key ts entry le h change same past =
    let sw : SlidingWindow = record { timestamps = ts; expires_at = now + window } in
    record {
      agrees = λ j later le'.
          ground (arith, window_of-put key j sw windows, change j, same later, h.agrees j later);
      past = λ j. rw (window_of-put key j sw windows) (
          if_ind (λ (w : SlidingWindow). All (λ x. x ≤ now) w.timestamps) (str_eq key j) (λ _. past)
            λ _.
              All-weaken (λ x. x ≤ t) (λ x. x ≤ now) (λ x p. omega arith)
                (window_of j windows).timestamps (h.past j));
      expires = λ j. rw (window_of-put key j sw windows) (
          if_ind (λ (w : SlidingWindow). All (λ x. x + window ≤ w.expires_at) w.timestamps)
            (str_eq key j)
            (λ _.
              All-weaken (λ x. x ≤ now) (λ x. x + window ≤ now + window) (λ x p. omega arith) ts
                past)
            λ _. h.expires j);
    }

at_key {ℓ} :
    {A : Type ℓ} (f g : Str → A) (key k : Str)
    → (if str_eq key k then f k else g k) ≡ (if str_eq key k then f key else g k)
at_key f g key k = elim (Bool-cases (str_eq key k)) [
  | inl e ↦ rw e (ap f (sym ((str_eq_iff key k).0 e)))
  | inr e ↦ rw e
]

both_branches {ℓ} : {A : Type ℓ} (b : Bool) (x : A) → (if b then x else x) ≡ x
both_branches true x = refl
both_branches false x = refl

pub recent-append :
    (later window : ℕ) (xs ys zs : List ℕ)
    → recent later window xs ≡ recent later window ys
    → recent later window (xs ++ zs) ≡ recent later window (ys ++ zs)
recent-append later window xs ys zs e =
    filter_by-append (after_window_start later window) xs zs
    ∙ ap (λ l. l ++ recent later window zs) e
    ∙ sym (filter_by-append (after_window_start later window) ys zs)

-- One request: the verdict is the specification's, and the limiter goes on tracking.
pub allow-Tracks :
    (now t : ℕ) (key : Str) (max_reqs window : ℕ) (ledger : Ledger) (windows : Windows)
    → t ≤ now
    → Tracks window t ledger windows
    → ((allow now key max_reqs window windows).0 ≡ (spec_allow now key max_reqs window ledger).0)
      × Tracks window now
          (spec_allow now key max_reqs window ledger).1
          (allow now key max_reqs window windows).1
unfolding allow
allow-Tracks now t key max_reqs window ledger windows le h =
    let ts = (window_of key windows).timestamps in
    let valid = recent now window ts in
    let same : valid ≡ recent now window (ledger key) = h.agrees key now le in
    let past =
      All-filter_by (λ x. x ≤ now) (after_window_start now window) ts
        (All-weaken (λ x. x ≤ t) (λ x. x ≤ now) (λ x p. omega arith) ts (h.past key)) in
    elim (Bool-cases (leb max_reqs (length valid))) [
      | inl full ↦
          let spec_full : ltb (length (recent now window (ledger key))) max_reqs ≡ false =
            ground (arith, ap (λ (l : List ℕ). length l) same) in
          rw (full, spec_full)
            (
              refl,
              put-Tracks window t now ledger ledger windows key valid (ledger key) le h
                  (λ k. sym (both_branches (str_eq key k) (ledger k)) ∙ at_key ledger ledger key k)
                  (λ later le'.
                    recent-recent now later window ts le' ∙ h.agrees key later (omega arith))
                  past,
            )
      | inr room ↦
          let spec_room : ltb (length (recent now window (ledger key))) max_reqs ≡ true =
            ground (arith, ap (λ (l : List ℕ). length l) same) in
          rw (room, spec_room)
            (
              rw same,
              put-Tracks window t now ledger
                  (λ k. if str_eq key k then ledger k ++ now ∷ [] else ledger k) windows key
                  (valid ++ now ∷ []) (ledger key ++ now ∷ []) le h
                  (at_key (λ k. ledger k ++ now ∷ []) ledger key)
                  (λ later le'.
                    recent-append later window valid (ledger key) (now ∷ [])
                      (recent-recent now later window ts le' ∙ h.agrees key later (omega arith)))
                  (All-append (λ x. x ≤ now) valid (now ∷ []) past (omega arith, tt)),
            )
    ]
