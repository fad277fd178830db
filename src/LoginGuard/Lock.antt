-- ===== src/LoginGuard/Lock.antt =====
-- When a login is locked, and for how long: login-guard.service.ts.
use Prim.Native.String.{String}
use stock_pilot_be.Prelude.{
  ℕ, ◌+◌, ◌-◌, ◌/◌, ◌≡◌, ◌≤◌, ◌<◌, refl, not, Bool, true, false, Option, none, some, List, [], ◌∷◌,
  max, ◌==◌, ltb, leb, filter_by, length, All, Bool-cases, inl, inr, arith, ap, ◌∙◌,
}
use stock_pilot_be.LoginGuard.{
  LoginEvent, later_of, window_ms, since_reset, failures_since, judge_recent, cleared_at,
  succeeded_at, get_lock_state, assert_not_locked, write_attempt, times, is_event,
}
use stock_pilot_be.LoginGuard.Times.{
  sort_down, take_first, last_of, length-sort_down, ltb-take_first, All-sort_down, All-take_first,
  All-last_of, All-filter_by,
}

All-filter_map :
    (P : ℕ → Type 0) (g : ℕ → Bool) (p : LoginEvent → Bool) (events : List LoginEvent)
    → All (λ e. P e.created_at) events
    → All P (filter_by g (times p events))
All-filter_map P g p [] h = tt
All-filter_map P g p (x ∷ xs) h = elim (Bool-cases (p x)) [
  | inr e ↦ rw e (All-filter_map P g p xs h.1)
  | inl e ↦ rw e (elim (Bool-cases (g x.created_at)) [
    | inl k ↦ rw k (h.0, All-filter_map P g p xs h.1)
    | inr k ↦ rw k (All-filter_map P g p xs h.1)
  ])
]

later_of-le : (since : ℕ) (o : Option ℕ) → since ≤ later_of since o
later_of-le since none = omega arith
later_of-le since (some t) = ground arith

since_reset-le :
    (minutes : ℕ) (key : String) (user : Option ℕ) (now : ℕ) (events : List LoginEvent)
    → now - window_ms minutes ≤ since_reset minutes key user now events
unfolding since_reset
since_reset-le minutes key user now events =
    twice (now - window_ms minutes) (cleared_at (now - window_ms minutes) key events)
      (succeeded_at (now - window_ms minutes) user events)
  where
    twice : (n : ℕ) (o p : Option ℕ) → n ≤ later_of (later_of n o) p
    twice n o p =
        let first = later_of-le n o in let second = later_of-le (later_of n o) p in omega arith

-- Every failure that counts keeps the lock up now.
abbrev IsRecent : ℕ → ℕ → List ℕ → Type 0
IsRecent minutes now = All (λ t. now < t + window_ms minutes)

judge_recent-locked :
    (max_attempts minutes now : ℕ) (recent : List ℕ)
    → 0 < max_attempts
    → IsRecent minutes now recent
    → (judge_recent max_attempts minutes now recent).locked ≡ not (ltb (length recent) max_attempts)
unfolding judge_recent
judge_recent-locked max_attempts minutes now [] some_limit h =
    rw (limited max_attempts some_limit) refl
  where
    limited : (n : ℕ) → 0 < n → ltb 0 n ≡ true
    limited n h = ground arith
judge_recent-locked max_attempts minutes now (t ∷ ts) some_limit h =
    elim (Bool-cases (ltb (length (t ∷ ts)) max_attempts)) [
      | inl few ↦ rw few refl
      | inr many ↦ rw many (up _ (All-last_of (λ x. now < x + window_ms minutes) t ts h.0 h.1))
    ]
  where
    up : (n : ℕ) → now < n + window_ms minutes → ltb now (n + window_ms minutes) ≡ true
    up n h = ground arith

failures_since-IsRecent :
    (minutes now since : ℕ) (key : String) (events : List LoginEvent)
    → now - window_ms minutes ≤ since
    → IsRecent minutes now (failures_since key since events)
unfolding failures_since
failures_since-IsRecent minutes now since key events h =
    All-filter_by (λ t. now < t + window_ms minutes) (λ t. ltb since t) _
      (λ t e. inside t (window_ms minutes) h e)
  where
    inside : (t w : ℕ) → now - w ≤ since → ltb since t ≡ true → now < t + w
    inside t w h e = ground arith

failures_since-past :
    (key : String) (since now : ℕ) (events : List LoginEvent)
    → All (λ e. e.created_at ≤ now) events
    → All (λ t. t ≤ now) (failures_since key since events)
unfolding failures_since
failures_since-past key since now events past =
    All-filter_map (λ t. t ≤ now) (λ t. ltb since t) (is_event "LOGIN_FAILED" "AUTH_LOGIN" key)
      events past

-- With a limit above zero, a login is locked just when at least that many failures of the account came
-- after the last reset in the window, or after the window's start.
pub get_lock_state-locked :
    (max_attempts minutes : ℕ) (key : String) (user : Option ℕ) (now : ℕ) (events : List LoginEvent)
    → 0 < max_attempts
    → (get_lock_state max_attempts minutes key user now events).locked
      ≡ leb max_attempts
          (length (failures_since key (since_reset minutes key user now events) events))
unfolding get_lock_state
get_lock_state-locked max_attempts minutes key user now events some_limit =
    let since = since_reset minutes key user now events in
    let failed = failures_since key since events in
    let recent =
      failures_since-IsRecent minutes now since key events
        (since_reset-le minutes key user now events) in
    rw (limited max_attempts some_limit) (
      judge_recent-locked max_attempts minutes now (take_first max_attempts (sort_down failed))
        some_limit (All-take_first _ max_attempts _ (All-sort_down _ failed recent))
      ∙ ap not (ltb-take_first max_attempts (sort_down failed))
      ∙ rw (length-sort_down failed) (flip (length failed) max_attempts))
  where
    limited : (n : ℕ) → 0 < n → (n == 0) ≡ false
    limited n h = ground arith

    flip : (n m : ℕ) → not (ltb n m) ≡ leb m n
    flip n m = ground arith

judge_recent-bounds :
    (max_attempts minutes now : ℕ) (recent : List ℕ)
    → All (λ t. t ≤ now) recent
    → (judge_recent max_attempts minutes now recent).locked ≡ true
    → (1 ≤ (judge_recent max_attempts minutes now recent).retry_after_minutes)
      × ((judge_recent max_attempts minutes now recent).retry_after_minutes ≤ max 1 minutes)
unfolding judge_recent
judge_recent-bounds max_attempts minutes now recent past h =
    elim (Bool-cases (ltb (length recent) max_attempts)) [
      | inl few ↦ cc
      | inr many ↦
          rw many
            (within (last_of 0 recent) (All-last_of (λ t. t ≤ now) 0 recent (omega arith) past))
    ]
  where
    within :
        (t : ℕ)
        → t ≤ now
        → (1 ≤ max 1 ((t + window_ms minutes - now + 59_999) / 60_000))
          × (max 1 ((t + window_ms minutes - now + 59_999) / 60_000) ≤ max 1 minutes)
    within t h = (omega arith, omega arith)

-- While a login is locked and no event lies in the future, the wait it is told is one minute at least,
-- and no more than the window, or one minute where the window has none.
pub get_lock_state-bounds :
    (max_attempts minutes : ℕ) (key : String) (user : Option ℕ) (now : ℕ) (events : List LoginEvent)
    → All (λ e. e.created_at ≤ now) events
    → (get_lock_state max_attempts minutes key user now events).locked ≡ true
    → (1 ≤ (get_lock_state max_attempts minutes key user now events).retry_after_minutes)
      × ((get_lock_state max_attempts minutes key user now events).retry_after_minutes
          ≤ max 1 minutes)
unfolding get_lock_state
get_lock_state-bounds max_attempts minutes key user now events past h =
    elim (Bool-cases (max_attempts == 0)) [
      | inl off ↦ cc
      | inr limited ↦ rw limited (
          judge_recent-bounds max_attempts minutes now _
            (All-take_first _ max_attempts _ (
              All-sort_down _ _ (
                failures_since-past key (since_reset minutes key user now events) now events past)))
            (rw limited at h))
    ]

-- An event of another kind does not count.
blocked_ignored :
    (max_attempts minutes : ℕ) (key other : String) (user : Option ℕ) (now later : ℕ)
    (events : List LoginEvent)
    → get_lock_state max_attempts minutes other user later
        (write_attempt "LOGIN_BLOCKED" key now ∷ events)
      ≡ get_lock_state max_attempts minutes other user later events
unfolding get_lock_state
blocked_ignored max_attempts minutes key other none now later events = refl
blocked_ignored max_attempts minutes key other (some u) now later events = refl

-- A blocked attempt is logged, but the log of it neither adds to the failures nor takes any away.
pub assert_not_locked-blocked :
    (max_attempts minutes : ℕ) (key other : String) (user : Option ℕ) (now later : ℕ)
    (events : List LoginEvent)
    → get_lock_state max_attempts minutes other user later
        (assert_not_locked max_attempts minutes key user now events).1
      ≡ get_lock_state max_attempts minutes other user later events
unfolding assert_not_locked
assert_not_locked-blocked max_attempts minutes key other user now later events =
    elim (Bool-cases (get_lock_state max_attempts minutes key user now events).locked) [
      | inr open_ ↦ rw open_ refl
      | inl shut ↦ rw shut (blocked_ignored max_attempts minutes key other user now later events)
    ]
