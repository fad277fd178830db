-- ===== src/LoginGuard.antt =====
-- src/common/services/login-guard.service.ts: the lock of a login after too many failures, read off the
-- audit log. Times are in milliseconds; the account's key, a hash of the e-mail, is an argument, and so
-- are the settings. A read of the log that fails, which lets the login pass, is not modelled.
pub mod Times
pub mod Lock
use Prim.Native.String.{String}
use text.Mathlib.Text.{◌==◌ as str_eq}
use stock_pilot_be.Prelude.{
  ℕ, ◌+◌, ◌-◌, ◌*◌, ◌/◌, ◌&&◌, not, Bool, true, false, Option, none, some, List, [], ◌∷◌, map, max,
  ◌==◌, ltb, leb, filter_by, length, if◌then◌else◌,
}
use stock_pilot_be.Prelude.Result.{Result, ok, err, Failure, rate_limited}
use stock_pilot_be.Ledger.{decimal}
use Times.{sort_down, take_first, last_of, newest}

-- The columns of `audit_logs` that the service reads.
pub record LoginEvent : Type 0 where
  pub action : String
  pub entity_type : String
  pub entity_id : String
  pub created_at : ℕ

pub record LoginLockState : Type 0 where
  pub locked : Bool
  pub failures : ℕ
  pub retry_after_minutes : ℕ

-- `action`, `entityType` and `entityId` of a query's `where`.
abbrev pub is_event : String → String → String → LoginEvent → Bool
is_event action type id e =
    str_eq e.action action && (str_eq e.entity_type type && str_eq e.entity_id id)

abbrev pub times : (LoginEvent → Bool) → List LoginEvent → List ℕ
times p events = map (λ e. e.created_at) (filter_by p events)

-- The newest reset since the window's start, or the start: `if (reset.createdAt > since)`.
abbrev pub later_of : ℕ → Option ℕ → ℕ
later_of since none = since
later_of since (some t) = if ltb since t then t else since

abbrev pub window_ms : ℕ → ℕ
window_ms minutes = minutes * 60 * 1_000

abbrev pub cleared_at : ℕ → String → List LoginEvent → Option ℕ
cleared_at start key events =
    newest
      (filter_by (λ t. leb start t) (times (is_event "LOGIN_LOCK_CLEARED" "AUTH_LOGIN" key) events))

-- The id of no user, or 0, looks for no success.
abbrev pub succeeded_at : ℕ → Option ℕ → List LoginEvent → Option ℕ
succeeded_at start none events = none
succeeded_at start (some u) events =
    if u == 0
    then none
    else newest
        (filter_by (λ t. leb start t) (times (is_event "USER_LOGIN" "AUTH" (decimal u)) events))

-- `since`, after the loop over the resets.
unfoldable pub since_reset : ℕ → String → Option ℕ → ℕ → List LoginEvent → ℕ
since_reset minutes key user now events =
    let start = now - window_ms minutes in
    later_of (later_of start (cleared_at start key events)) (succeeded_at start user events)

-- The times of the failures that count.
unfoldable pub failures_since : String → ℕ → List LoginEvent → List ℕ
failures_since key since events =
    filter_by (λ t. ltb since t) (times (is_event "LOGIN_FAILED" "AUTH_LOGIN" key) events)

-- The lock lifts once the oldest of the newest failures leaves the window. `Math.ceil(ms / 60000)`, and
-- one minute at least.
unfoldable pub judge_recent : ℕ → ℕ → ℕ → List ℕ → LoginLockState
judge_recent max_attempts minutes now recent =
    let end_ms = last_of 0 recent + window_ms minutes in
    if ltb (length recent) max_attempts
    then record { locked = false; failures = length recent; retry_after_minutes = 0 }
    else record {
      locked = ltb now end_ms;
      failures = length recent;
      retry_after_minutes = max 1 ((end_ms - now + 59_999) / 60_000);
    }

unfoldable pub get_lock_state : ℕ → ℕ → String → Option ℕ → ℕ → List LoginEvent → LoginLockState
unfolding since_reset failures_since judge_recent
get_lock_state max_attempts minutes key user now events =
    let since = since_reset minutes key user now events in
    if max_attempts == 0
    then record { locked = false; failures = 0; retry_after_minutes = 0 }
    else judge_recent max_attempts minutes now
        (take_first max_attempts (sort_down (failures_since key since events)))

-- `writeAttempt`
abbrev pub write_attempt : String → String → ℕ → LoginEvent
write_attempt action key now = record {
  action = action;
  entity_type = "AUTH_LOGIN";
  entity_id = key;
  created_at = now;
}

-- A locked login is logged and rejected; the log is kept although the method throws.
unfoldable pub assert_not_locked :
    ℕ → ℕ → String → Option ℕ → ℕ → List LoginEvent → Result (Unit {0}) × List LoginEvent
unfolding get_lock_state
assert_not_locked max_attempts minutes key user now events =
    if (get_lock_state max_attempts minutes key user now events).locked
    then (err rate_limited, write_attempt "LOGIN_BLOCKED" key now ∷ events)
    else (ok tt, events)

unfoldable pub record_failure : String → ℕ → List LoginEvent → List LoginEvent
record_failure key now events = write_attempt "LOGIN_FAILED" key now ∷ events
