-- ===== src/Tests/System.antt =====
-- The services one after the other: a confirmation, a payment by link, and a new link.
use stock_pilot_be.Prelude.{◌≡◌, refl}
use stock_pilot_be.Prelude.Result.{ok}
use stock_pilot_be.Schema.{Database}
use stock_pilot_be.Orders.Stock.{IsSound}
use stock_pilot_be.Payos.{settle, perform}
use stock_pilot_be.Payos.Deliver.{attempt}
use stock_pilot_be.Payos.Link.{created, create_payment_link}
use stock_pilot_be.System.{none_yet, and_then, payment_step, link_step}
use stock_pilot_be.System.Stock.{Steps-IsSound}
use stock_pilot_be.Tests.Payments.{paying, seen, open_secrets, draws, basket}
use stock_pilot_be.Ledger.{atomic_deduct, create_movement, deduct_item}
use stock_pilot_be.Prelude.Int.{◌+ℤ◌}
use stock_pilot_be.Prelude.Result.{◌>>=◌}
use stock_pilot_be.Tests.Shop.{plain, shop-IsSound}

abbrev paid_off : Database
paid_off = attempt 7 (settle seen) paying

settles : perform 7 (settle seen) paying ≡ ok paid_off
unfolding attempt perform ◌>>=◌ atomic_deduct deduct_item ◌+ℤ◌ create_movement
settles = refl

abbrev linked_again : Database
linked_again =
    (create_payment_link open_secrets plain (λ c a. created) draws 8 1 5 basket paid_off).1

Steps-IsSound_example : IsSound linked_again
Steps-IsSound_example =
    Steps-IsSound paying linked_again
      (and_then (and_then none_yet (payment_step 7 (settle seen) settles))
        (link_step open_secrets plain (λ c a. created) draws 8 1 5 basket paid_off))
      (record { stocked = shop-IsSound.stocked; explained = shop-IsSound.explained })
