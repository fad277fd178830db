-- ===== src/Tests/Requests.antt =====
-- Requests with an idempotency key in the shop.
use stock_pilot_be.Prelude.{ℕ, ◌≡◌, ◌≢◌, refl, Option, some, none, List, [], ◌∷◌}
use stock_pilot_be.Prelude.Int.{pos}
use stock_pilot_be.Prelude.Rows.{find_first}
use stock_pilot_be.Prelude.Result.{conflict}
use stock_pilot_be.Schema.{MovementType, StockMovement}
use stock_pilot_be.Idempotency.Recovery.{Body, handler_body, recover_committed_outcome}
use stock_pilot_be.Idempotency.{
  IdempotencyRequest, RequestStatus, Incoming, run, replay, reject, Identity, is_of, enter,
  complete_request, idempotency,
}
use stock_pilot_be.Idempotency.Held.{enter_held}
use stock_pilot_be.Idempotency.Replay.{complete_request-replays}
use stock_pilot_be.Tests.Shop.{shop}

abbrev mine : Identity
mine = record { store_id = 1; operation = "ORDER_CREATE"; key = "K" }

abbrev request : Incoming
request = record {
  key = some "K";
  store_id = some 1;
  operation = "ORDER_CREATE";
  ttl_seconds = 60;
  request_hash = "H";
  order_id = none;
}

abbrev working : IdempotencyRequest
working = record {
  id = 1;
  store_id = 1;
  operation = "ORDER_CREATE";
  key = "K";
  request_hash = "H";
  status = RequestStatus.processing;
  status_code = none;
  response_json = none;
  expires_at = 70_000;
}

abbrev at_work : List IdempotencyRequest
at_work = working ∷ []

first_runs : (idempotency shop 10_000 request 1 []).0 ≡ run 1
unfolding idempotency
first_runs = refl

second_waits : (idempotency shop 69_999 request 2 at_work).0 ≡ reject conflict
unfolding idempotency
second_waits = refl

late_runs : (idempotency shop 70_000 request 2 at_work).0 ≡ run 1
unfolding idempotency recover_committed_outcome
late_runs = refl

answered :
    (idempotency shop 20_000 request 2
      (complete_request 1 201 (some (handler_body "OK")) at_work)).0
    ≡ replay 201 (some (handler_body "OK"))
unfolding idempotency complete_request
answered = refl

-- The second request looked before the first one's row was there.
enter_held_example : (enter shop 20_000 request mine 2 none at_work).0 ≢ run 2
enter_held_example =
    enter_held shop 20_000 request mine 2 none working at_work refl (λ e found. cc) 2

first_enters : (enter shop 10_000 request mine 1 none []).0 ≡ run 1
unfolding enter
first_enters = refl

complete_request-replays_example :
    (enter shop 20_000 request mine 2
      (find_first (is_of mine) (complete_request 1 201 (some (handler_body "OK")) at_work))
      (complete_request 1 201 (some (handler_body "OK")) at_work)).0
    ≡ replay 201 (some (handler_body "OK"))
complete_request-replays_example =
    complete_request-replays shop 20_000 request mine 2 201 (some (handler_body "OK")) working
      at_work refl refl

abbrev receipt : StockMovement
receipt = record {
  id = 7;
  store_id = 1;
  warehouse_id = 1;
  stock_item_id = 10;
  type = MovementType.inflow;
  delta = pos 5;
  before_quantity = pos 0;
  after_quantity = pos 5;
  reference_type = "GOODS_RECEIPT";
  reference_id = "R";
  idempotency_key = some "INVENTORY_INFLOW:1:K1:10";
  created_by_id = some 5;
}

abbrev is_recovered : Option (ℕ × Body) → Option ℕ
is_recovered none = none
is_recovered (some (code, body)) = some code

-- What the key "K1" has received answers a request with the key "K", which has received nothing.
prefix_recovers :
    is_recovered (
      recover_committed_outcome 1 "INVENTORY_INFLOW" "INVENTORY_INFLOW:1:K" none
        (record shop { movements = receipt ∷ [] }))
    ≡ some 200
unfolding recover_committed_outcome
prefix_recovers = refl
