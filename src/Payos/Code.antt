-- ===== src/Payos/Code.antt =====
-- The order codes of PayOS payments: `generateUniqueOrderCode` of pos-payos.service.ts. A template of
-- digits is the number that it spells: the clock has at least nine digits, and `random` is what the
-- random number gives beyond its least value.
use stock_pilot_be.Prelude.{
  ℕ, zero, suc, ◌+◌, ◌*◌, ◌/◌, ◌%◌, ◌≤◌, ◌<◌, ◌≡◌, ◌⊎◌, Bool, false, if◌then◌else◌, Bool-cases, inl,
  inr, arith,
}

-- What one attempt reads: the time in milliseconds and the random part.
pub record Draw : Type 0 where
  pub now : ℕ
  pub random : ℕ

-- "1", four digits of the store, seven of the time, and three random ones from 100 on.
unfoldable pub candidate_code : ℕ → Draw → ℕ
candidate_code store draw =
    100_000_000_000_000
    + store % 10_000 * 10_000_000_000
    + draw.now % 10_000_000 * 1_000
    + (draw.random % 900 + 100)

-- "2", nine digits of the time, and five random ones from 10000 on.
unfoldable pub fallback_code : Draw → ℕ
fallback_code draw =
    200_000_000_000_000 + draw.now % 1_000_000_000 * 100_000 + (draw.random % 90_000 + 10_000)

-- The loop, with the attempts that are left: `taken` says that a payment has the code.
unfoldable pub find_code : ℕ → ℕ → (ℕ → Draw) → (ℕ → Bool) → ℕ
find_code zero store draws taken = fallback_code (draws zero)
find_code (suc left) store draws taken =
    let rest = find_code left store draws taken in
    let code = candidate_code store (draws (suc left)) in if taken code then rest else code

unfoldable pub unique_order_code : ℕ → (ℕ → Draw) → (ℕ → Bool) → ℕ
unfolding find_code
unique_order_code = find_code 10

-- `Number.MAX_SAFE_INTEGER`
abbrev pub max_safe_integer : ℕ
max_safe_integer = 9_007_199_254_740_991

candidate_code_range :
    (store : ℕ) (draw : Draw)
    → (100_000_000_000_000 ≤ candidate_code store draw)
      × (candidate_code store draw < 200_000_000_000_000)
      × ((candidate_code store draw / 10_000_000_000) % 10_000 ≡ store % 10_000)
unfolding candidate_code
candidate_code_range store draw = omega arith

fallback_code_range :
    (draw : Draw)
    → (200_000_000_000_000 ≤ fallback_code draw) × (fallback_code draw < 300_000_000_000_000)
unfolding fallback_code
fallback_code_range draw = omega arith

-- A code with its fifteen digits: one of the store's that is free, or a fallback.
pub record IsOrderCode (store : ℕ) (taken : ℕ → Bool) (code : ℕ) : Type 0 where
  pub long : 100_000_000_000_000 ≤ code
  pub safe : code < max_safe_integer
  pub free_or_fallback :
      ((taken code ≡ false) × ((code / 10_000_000_000) % 10_000 ≡ store % 10_000))
      ⊎ (200_000_000_000_000 ≤ code)

module _ (store : ℕ) (draws : ℕ → Draw) (taken : ℕ → Bool) where
  find_code-IsOrderCode :
      (attempts : ℕ) → IsOrderCode store taken (find_code attempts store draws taken)
  unfolding find_code
  find_code-IsOrderCode zero =
      let (low, high) = fallback_code_range (draws 0) in
      record { long = omega arith; safe = omega arith; free_or_fallback = inr low }
  find_code-IsOrderCode (suc left) =
      elim (Bool-cases (taken (candidate_code store (draws (suc left))))) [
        | inl clash ↦ rw clash (find_code-IsOrderCode left)
        | inr free ↦
            let (low, high, part) = candidate_code_range store (draws (suc left)) in
            rw free (record { long = low; safe = omega arith; free_or_fallback = inl (free, part) })
      ]

  -- The order code, whatever the clock and the random numbers give: it has fifteen digits and is below
  -- JavaScript's greatest safe integer, and it is free and carries the last four digits of the store's
  -- id, unless it is a fallback, which begins with 2 or more.
  pub unique_order_code-IsOrderCode : IsOrderCode store taken (unique_order_code store draws taken)
  unfolding unique_order_code
  unique_order_code-IsOrderCode = find_code-IsOrderCode 10
