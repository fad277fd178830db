-- ===== src/Ledger/Keys.antt =====
-- The template `${key}:${stockItemId}` of stock-ledger.service.ts.
use Prim.Native.Nat.{ℕ, zero, suc, ◌/◌, ◌%◌}
use Prim.Native.String.{String, ◌++◌}
use stock_pilot_be.Prelude.{◌==◌, if◌then◌else◌}

digit : ℕ → String
digit d =
    if d == 0
    then "0"
    else if d == 1
    then "1"
    else if d == 2
    then "2"
    else if d == 3
    then "3"
    else if d == 4
    then "4"
    else if d == 5
    then "5"
    else if d == 6
    then "6"
    else if d == 7
    then "7"
    else if d == 8
    then "8"
    else "9"

-- A number has fewer digits than its successor, so that is enough fuel.
decimal_with : ℕ → ℕ → String
decimal_with zero n = ""
decimal_with (suc fuel) n =
    let rest = decimal_with fuel (n / 10) in if n / 10 == 0 then digit n else rest ++ digit (n % 10)

unfoldable pub decimal : ℕ → String
unfolding digit decimal_with
decimal n = decimal_with (suc n) n

unfoldable pub item_key : String → ℕ → String
unfolding decimal
item_key key item = key ++ (":" ++ decimal item)
