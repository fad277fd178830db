-- ===== src/Tests/Payments.antt =====
-- PayOS links, webhooks and polls in the shop.
use Prim.Native.String.{String, ◌++◌ as str_append}
use stock_pilot_be.Prelude.{
  ℕ, ◌≡◌, refl, ◌⊎◌, true, false, Option, some, none, List, [], ◌∷◌, arith,
}
use stock_pilot_be.Prelude.Int.{ℤ, pos, ◌+ℤ◌, ◌-ℤ◌, ◌*ℤ◌}
use stock_pilot_be.Prelude.Result.{Result, ok, err, Ensures, ◌>>=◌, validation}
use stock_pilot_be.Schema.{
  Database, Order, OrderStatus, Payment, PaymentMethod, PaymentProvider, PaymentStatus,
  StorePaymentConfig,
}
use stock_pilot_be.Ledger.{
  atomic_deduct, deduct_item, create_movement, normalize_items, StockChangeItem, decimal,
}
use stock_pilot_be.Ledger.Posting.{on_hand}
use stock_pilot_be.Orders.{confirm_order}
use stock_pilot_be.Inventory.{target_warehouse}
use stock_pilot_be.Pos.Sale.{pos_lines}
use stock_pilot_be.Payos.{
  Action, PaymentView, Secrets, WebhookData, WebhookPayload, WebhookAnswer, PollAnswer, PayosState,
  PayosStatus, settle, cancel, settled, paid_answer, webhook_decision, handle_webhook,
  check_payment_status,
}
use stock_pilot_be.Payos.Code.{Draw, unique_order_code}
use stock_pilot_be.Payos.Deliver.{deliver, deliver_once}
use stock_pilot_be.Payos.Link.{
  CreatePayosLinkInput, PaymentLink, created, refused, create_payment_link,
}
use stock_pilot_be.Payos.Promise.{
  IsPromised, WasMade, create_payment_link-IsPromised, create_payment_link-refused,
}
use stock_pilot_be.Payos.Remove.{IsFresh, tables}
use stock_pilot_be.Payos.Settle.{IsClosed, taken}
use stock_pilot_be.Payos.Trust.{IsAuthorised, webhook_decision-IsAuthorised}
use stock_pilot_be.Payos.{data_entries, perform, require_credentials, whole_units}
use stock_pilot_be.Payos.Code.{candidate_code}
use stock_pilot_be.Payos.Signature.{insert_entry, sign_data, verify_payos_signature}
use stock_pilot_be.Audit.{audit}
use stock_pilot_be.Orders.{advance_order}
use stock_pilot_be.Payos.{poll_decision}
use stock_pilot_be.Tests.Shop.{shop, main_warehouse, plain, plain-IsExact, sold}

abbrev config : StorePaymentConfig
config = record {
  store_id = 1;
  provider = PaymentProvider.payos_link;
  is_active = true;
  client_id_encrypted = "client";
  api_key_encrypted = "api";
  checksum_key_encrypted = "checksum";
}

abbrev cashless : Database
cashless = record shop { payment_configs = config ∷ [] }

-- Keys that are not encrypted, and a "signature" that writes the key before the data.
abbrev pub open_secrets : Secrets
open_secrets = record { decrypt = some; hmac = λ key text. str_append key text }

abbrev pub basket : CreatePayosLinkInput
basket = record {
  warehouse_id = none;
  discount_amount = pos 0;
  tax_amount = pos 0;
  items = record { stock_item_id = 10; quantity = pos 2 } ∷ [];
}

abbrev pub draws : ℕ → Draw
draws n = record { now = 1_700_000_123_456; random = n }

abbrev link : PaymentLink
link = record {
  order_id = 1_000;
  order_number = "POS-PAYOS-100010123456110";
  order_code = 100_010_123_456_110;
  amount = pos 20;
}

link_runs :
    (create_payment_link open_secrets plain (λ c a. created) draws 7 1 5 basket cashless).0
    ≡ ok link
unfolding create_payment_link ◌>>=◌ require_credentials target_warehouse normalize_items ◌+ℤ◌
    pos_lines ◌*ℤ◌ whole_units ◌-ℤ◌ decimal unique_order_code candidate_code
link_runs = refl

cashless-IsFresh : IsFresh cashless
cashless-IsFresh = record { orders = (refl, (refl, tt)); items = (refl, (refl, tt)); payments = tt }

create_payment_link-IsPromised_example :
    IsPromised link
      (create_payment_link open_secrets plain (λ c a. created) draws 7 1 5 basket cashless).1
    × WasMade created
create_payment_link-IsPromised_example =
    create_payment_link-IsPromised open_secrets plain (λ c a. created) draws 7 1 5 basket cashless
      link plain-IsExact cashless-IsFresh link_runs

create_payment_link-refused_example :
    tables (create_payment_link open_secrets plain (λ c a. refused) draws 7 1 5 basket cashless).1
    ≡ tables cashless
create_payment_link-refused_example =
    create_payment_link-refused open_secrets plain (λ c a. refused) draws 7 1 5 basket cashless
      cashless-IsFresh (λ c a. refl)

abbrev due : Payment
due = record {
  id = 900;
  store_id = 1;
  order_id = 100;
  provider = PaymentProvider.payos_link;
  method = PaymentMethod.payos;
  amount = pos 2_000;
  status = PaymentStatus.pending;
  provider_reference = some "100010123456110";
  client_request_key = none;
}

abbrev pub paying : Database
paying = record cashless { payments = due ∷ [] }

abbrev pair : StockChangeItem
pair = record { stock_item_id = 10; quantity = pos 2 }

abbrev draft_order : Order
draft_order = record {
  id = 100;
  store_id = 1;
  order_number = "ORD";
  status = OrderStatus.draft;
  subtotal_amount = pos 2_000;
  discount_amount = pos 0;
  tax_amount = pos 0;
  total_amount = pos 2_000;
  created_by_id = 5;
  created_at = 1_000_000;
  confirmed_at = none;
  fulfilled_at = none;
  canceled_at = none;
  client_request_key = none;
}

abbrev pub seen : PaymentView
seen = record {
  payment = due;
  order = draft_order;
  items = sold 101 100 10 (pos 2) (pos 2_000) ∷ [];
}

abbrev storm : List (ℕ × Action)
storm = (7, settle seen) ∷ (8, settle seen) ∷ (9, cancel seen) ∷ []

deliver_once_example :
    ((u j : ℕ) → on_hand u j (deliver storm paying) ≡ on_hand u j paying)
    ⊎ (IsClosed 900 (deliver storm paying)
        × ((u j : ℕ)
            → on_hand u j (deliver storm paying)
              ≡ on_hand u j paying +ℤ taken (pair ∷ []) main_warehouse u j))
deliver_once_example =
    deliver_once 900 1 (pair ∷ []) main_warehouse storm paying (omega arith, tt) refl
      ((refl, refl, refl), ((refl, refl, refl), (refl, tt)))

abbrev shelves : Database → List ℤ
shelves db = on_hand 1 10 db ∷ on_hand 1 11 db ∷ []

storm_runs : shelves (deliver storm paying) ≡ pos 3 ∷ pos 3 ∷ []
unfolding deliver perform ◌>>=◌ atomic_deduct deduct_item ◌+ℤ◌ create_movement ◌-ℤ◌
storm_runs = refl

abbrev paid_data : WebhookData
paid_data = record {
  order_code = 100_010_123_456_110;
  amount = some (pos 20);
  code = some "00";
  description = some "POS";
  others = [];
}

abbrev payload : String → WebhookPayload
payload s = record {
  webhook_url = none;
  test = false;
  data_part = some paid_data;
  signature = some s;
}

abbrev answer_of : Result (WebhookAnswer × Database) → Result (WebhookAnswer × List ℤ)
answer_of (ok (a, db)) = ok (a, shelves db)
answer_of (err e) = err e

webhook_runs :
    answer_of (
      handle_webhook open_secrets 7
        (payload "checksumamount=20&code=00&description=POS&orderCode=100010123456110")
        paying)
    ≡ ok (settled, pos 3 ∷ pos 3 ∷ [])
unfolding handle_webhook ◌>>=◌ webhook_decision decimal verify_payos_signature sign_data
    data_entries insert_entry whole_units perform atomic_deduct deduct_item ◌+ℤ◌ create_movement
    ◌-ℤ◌
webhook_runs = refl

forged_runs : answer_of (handle_webhook open_secrets 7 (payload "forged") paying) ≡ err validation
unfolding handle_webhook ◌>>=◌ webhook_decision decimal verify_payos_signature sign_data
    data_entries insert_entry
forged_runs = refl

webhook_decision-IsAuthorised_example :
    Ensures
      (λ r. IsAuthorised open_secrets (payload "forged") paying r.0)
      (webhook_decision open_secrets (payload "forged") paying)
webhook_decision-IsAuthorised_example =
    webhook_decision-IsAuthorised open_secrets (payload "forged") paying

-- An order that was confirmed by hand before its link is paid leaves the shelf twice.
confirmed_by_hand :
    answer_of (
      confirm_order 6 1 5 100 paying >>= λ r.
      handle_webhook open_secrets 7
        (payload "checksumamount=20&code=00&description=POS&orderCode=100010123456110")
        r.1)
    ≡ ok (settled, pos 1 ∷ pos 3 ∷ [])
unfolding handle_webhook confirm_order ◌>>=◌ advance_order atomic_deduct deduct_item ◌+ℤ◌
    create_movement webhook_decision audit decimal verify_payos_signature sign_data data_entries
    insert_entry whole_units perform ◌-ℤ◌
confirmed_by_hand = refl

abbrev told_paid : ℕ → Option PayosState
told_paid code = some (record { status = PayosStatus.paid; amount = some (pos 20) })

abbrev poll_of : Result (PollAnswer × Database) → Result (PollAnswer × List ℤ)
poll_of (ok (a, db)) = ok (a, shelves db)
poll_of (err e) = err e

-- A poll for a payment that was canceled answers that it is paid, and nothing is settled.
poll_of_canceled :
    poll_of (
      check_payment_status open_secrets 7 1 100_010_123_456_110 told_paid
        (deliver ((6, cancel seen) ∷ []) paying))
    ≡ ok (paid_answer "ORD" 100, pos 5 ∷ pos 3 ∷ [])
unfolding check_payment_status deliver ◌>>=◌ poll_decision perform decimal whole_units
poll_of_canceled = refl
