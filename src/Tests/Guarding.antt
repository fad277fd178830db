-- ===== src/Tests/Guarding.antt =====
-- A lease that two instances ask for, and a login that fails too often.
use stock_pilot_be.Prelude.{ℕ, ◌≡◌, refl, true, some, none, List, [], ◌∷◌, leb, length, arith}
use stock_pilot_be.DbLease.{
  Lease, IsHolder, try_acquire, release, run_exclusive, try_acquire_held, release_other,
  try_acquire-IsHolder,
}
use stock_pilot_be.Ledger.{decimal}
use stock_pilot_be.LoginGuard.{
  LoginEvent, get_lock_state, failures_since, since_reset, write_attempt,
}
use stock_pilot_be.LoginGuard.Lock.{get_lock_state-locked}

abbrev lease : Lease
lease = record { name = "daily"; token = 7; expires_at = 1_000 }

abbrev leases : List Lease
leases = lease ∷ []

lease-IsHolder : IsHolder "daily" 7 1_000 leases
lease-IsHolder = record { lease = lease; found = refl; token = refl; expires = refl }

try_acquire_held_example :
    ((try_acquire "daily" 8 500 1_000 leases).0 ≡ none)
    × IsHolder "daily" 7 1_000 (try_acquire "daily" 8 500 1_000 leases).1
try_acquire_held_example =
    try_acquire_held "daily" 7 1_000 leases lease-IsHolder 8 500 1_000 (omega arith) (omega arith)

release_other_example : IsHolder "daily" 7 1_000 (release "daily" 8 leases)
release_other_example = release_other "daily" 7 1_000 leases lease-IsHolder 8 (omega arith)

late_acquire : (try_acquire "daily" 8 500 1_001 leases).0 ≡ some 8
unfolding try_acquire
late_acquire = refl

try_acquire-IsHolder_example : IsHolder "daily" 8 1_501 (try_acquire "daily" 8 500 1_001 leases).1
try_acquire-IsHolder_example =
    try_acquire-IsHolder "daily" 8 500 1_001 leases lease refl (omega arith) late_acquire

runs_alone :
    (run_exclusive "daily" 8 500 2_000
      (λ rows. ((run_exclusive {A = ℕ} "daily" 9 500 2_100 (λ r. (1, r)) rows).0, rows))
      leases).0
    ≡ some none
unfolding run_exclusive try_acquire
runs_alone = refl

-- Three failures in a minute, the newest first, and a success of the account's user before them.
abbrev log : List LoginEvent
log =
    write_attempt "LOGIN_FAILED" "email:a" 180_000
    ∷ write_attempt "LOGIN_FAILED" "email:a" 150_000
    ∷ write_attempt "LOGIN_FAILED" "email:a" 120_000
    ∷ record { action = "USER_LOGIN"; entity_type = "AUTH"; entity_id = "5"; created_at = 100_000 }
    ∷ []

three_lock :
    get_lock_state 3 15 "email:a" (some 5) 200_000 log
    ≡ record { locked = true; failures = 3; retry_after_minutes = 14 }
unfolding get_lock_state decimal
three_lock = refl

get_lock_state-locked_example :
    (get_lock_state 3 15 "email:a" (some 5) 200_000 log).locked
    ≡ leb 3 (length (failures_since "email:a" (since_reset 15 "email:a" (some 5) 200_000 log) log))
get_lock_state-locked_example =
    get_lock_state-locked 3 15 "email:a" (some 5) 200_000 log (omega arith)

is_shut : (get_lock_state 3 15 "email:a" (some 5) 200_000 log).locked ≡ true
unfolding get_lock_state decimal
is_shut = refl
