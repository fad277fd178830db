-- ===== src/Payos.antt =====
-- src/modules/pos/pos-payos.service.ts: payments by PayOS links. A webhook and a poll read the payment
-- first, and change the tables in a transaction of their own: what they decide on is one function and
-- what the transaction does another, so that other calls can come between. The secrets' decryption,
-- the HMAC and what PayOS answers are parameters.
pub mod Code
pub mod Signature
pub mod Settle
pub mod Deliver
pub mod Link
pub mod Remove
pub mod Promise
pub mod Trust
use Prim.Native.String.{String, ◌++◌ as str_append}
use text.Mathlib.Text.{◌==◌ as str_eq}
use stock_pilot_be.Prelude.{
  ℕ, zero, suc, ◌+◌, ◌/◌, ◌&&◌, ◌||◌, not, Bool, true, false, Option, none, some, List, [], ◌∷◌,
  ◌++◌, ◌==◌, if◌then◌else◌,
}
use stock_pilot_be.Prelude.Int.{ℤ, pos, negsuc, ◌-ℤ◌, eqb_ℤ}
use stock_pilot_be.Prelude.Rows.{find_first, update_all, holds}
use stock_pilot_be.Prelude.Result.{
  Result, ok, err, Failure, ◌>>=◌, ◌>>◌, ensure, or_fail, not_found, validation, unique_violation,
}
use stock_pilot_be.Schema.{
  Database, Order, OrderItem, OrderStatus, Payment, PaymentProvider, PaymentStatus,
  StorePaymentConfig, Warehouse, order_fulfill,
}
use stock_pilot_be.Ledger.{StockChangeContext, atomic_deduct, decimal}
use stock_pilot_be.Orders.{deduct_lines, is_default_warehouse, items_of}
use stock_pilot_be.Orders.Status.{is_draft, is_canceled, is_fulfilled}
use stock_pilot_be.Pos.{same_text, same_provider, write_order, confirmed, fulfilled}
use Signature.{Entry, JsonValue, number, string, undefined, verify_payos_signature}

-- `SecretEncryptionService.decrypt`, none where it throws, and the HMAC by key and data.
pub record Secrets : Type 0 where
  pub decrypt : String → Option String
  pub hmac : String → String → String

pub record Credentials : Type 0 where
  pub client_id : String
  pub api_key : String
  pub checksum_key : String

abbrev is_payos_config : ℕ → StorePaymentConfig → Bool
is_payos_config store c = c.store_id == store && same_provider PaymentProvider.payos_link c.provider

-- `getStorePayosCredentials`: no credentials without an active configuration.
unfoldable pub get_store_payos_credentials : Secrets → ℕ → Database → Result (Option Credentials)
get_store_payos_credentials s store db =
    elim (find_first (is_payos_config store) db.payment_configs) [
      | none ↦ ok none
      | some c ↦ if c.is_active then unlock c else ok none
    ]
  where
    unlock : StorePaymentConfig → Result (Option Credentials)
    unlock c = do
      client_id ← or_fail (s.decrypt c.client_id_encrypted) validation
      api_key ← or_fail (s.decrypt c.api_key_encrypted) validation
      checksum_key ← or_fail (s.decrypt c.checksum_key_encrypted) validation
      ok (some (record { client_id = client_id; api_key = api_key; checksum_key = checksum_key }))

-- `if (!creds) throw new ValidationError(...)`
unfoldable pub require_credentials : Secrets → ℕ → Database → Result Credentials
unfolding get_store_payos_credentials
require_credentials s store db = do
  found ← get_store_payos_credentials s store db
  or_fail found validation

abbrev pub is_pending : PaymentStatus → Bool
is_pending s = elim s [ PaymentStatus.pending ↦ true | _ ↦ false ]

abbrev pub is_paid : PaymentStatus → Bool
is_paid s = elim s [ PaymentStatus.paid ↦ true | _ ↦ false ]

abbrev pub is_canceled_payment : PaymentStatus → Bool
is_canceled_payment s = elim s [ PaymentStatus.canceled ↦ true | _ ↦ false ]

-- A payment with its order and the order's lines, as one read found them.
pub record PaymentView : Type 0 where
  pub payment : Payment
  pub order : Order
  pub items : List OrderItem

abbrev pub has_code : ℕ → Payment → Bool
has_code code p =
    same_provider PaymentProvider.payos_link p.provider
    && same_text (some (decimal code)) p.provider_reference

-- `payment.findUnique({ where: { provider_providerReference }, include: { order } })`
unfoldable pub find_payment : ℕ → Database → Option PaymentView
find_payment code db = elim (find_first (has_code code) db.payments) [
  | none ↦ none
  | some p ↦ elim (find_first (λ o. o.id == p.order_id) db.orders) [
    | none ↦ none
    | some o ↦ some (record { payment = p; order = o; items = items_of o.id db })
  ]
]

-- `Math.round(Number(amount))`, of an amount in hundredths: halves go up.
unfoldable pub whole_units : ℤ → ℤ
whole_units (pos n) = pos ((n + 50) / 100)
whole_units (negsuc n) = pos 0 -ℤ pos ((n + 50) / 100)

-- `amount !== undefined && Number(amount) !== Math.round(Number(payment.amount))`, denied.
abbrev pub amount_agrees : Option ℤ → ℤ → Bool
amount_agrees none due = true
amount_agrees (some a) due = eqb_ℤ a (whole_units due)

-- What a webhook or a poll goes on to do.
pub data Action : Type 0 where
  leave : Action
  cancel settle : PaymentView → Action

-- `where: { id: payment.id, status: PaymentStatus.PENDING }`
abbrev pub is_pending_row : ℕ → Payment → Bool
is_pending_row id p = p.id == id && is_pending p.status

abbrev pub set_payment : ℕ → PaymentStatus → Database → Database
set_payment id status db = record db {
  payments = update_all (is_pending_row id) (λ p. record p { status = status }) db.payments;
}

-- The two `updateMany` of a payment that was not made.
unfoldable pub cancel_pending : PaymentView → Database → Database
cancel_pending v db =
    let paid_off = set_payment v.payment.id PaymentStatus.canceled db in
    record paid_off {
      orders =
          update_all (λ o. o.id == v.order.id && is_draft o.status)
            (λ o. record o { status = OrderStatus.canceled }) db.orders;
    }

abbrev pub settle_context : PaymentView → Warehouse → StockChangeContext
settle_context v w = record {
  store_id = v.payment.store_id;
  warehouse_id = w.id;
  user_id = some v.order.created_by_id;
  reference_type = "POS_SALE";
  reference_id = v.order.order_number;
  idempotency_key = some (str_append "POS_PAYOS_DEDUCT_" (decimal v.order.id));
}

-- The settlement's transaction, once its first update has found the payment pending.
unfoldable pub settle_pending : ℕ → PaymentView → Warehouse → Database → Result Database
settle_pending now v w db = do
  let db1 = set_payment v.payment.id PaymentStatus.paid db
  let db2 = write_order v.order.id (confirmed now) db1
  (ms, db3) ← atomic_deduct (settle_context v w) order_fulfill (deduct_lines v.items) db2
  ok (write_order v.order.id (fulfilled now) db3)

-- `if (updateResult.count === 0) return`
unfoldable pub settle_once : ℕ → PaymentView → Warehouse → Database → Result Database
unfolding settle_pending
settle_once now v w db = elim (find_first (is_pending_row v.payment.id) db.payments) [
  | none ↦ ok db
  | some _ ↦ settle_pending now v w db
]

-- `isConcurrentSettlementConflict`: the transaction was rolled back, and the order counts as settled.
unfoldable pub or_settled : Database → Result Database → Result Database
or_settled db (ok db') = ok db'
or_settled db (err e) = elim e [ unique_violation ↦ ok db | other ↦ err other ]

unfoldable pub perform : ℕ → Action → Database → Result Database
unfolding settle_once cancel_pending or_settled
perform now leave db = ok db
perform now (cancel v) db = ok (cancel_pending v db)
perform now (settle v) db = do
  w ← or_fail (find_first (is_default_warehouse v.payment.store_id) db.warehouses) not_found
  or_settled db (settle_once now v w db)

-- The data of a webhook. An absent `orderCode` is 0; `others` are the keys that are not named here.
pub record WebhookData : Type 0 where
  pub order_code : ℕ
  pub amount : Option ℤ
  pub code : Option String
  pub description : Option String
  pub others : List Entry

pub record WebhookPayload : Type 0 where
  pub webhook_url : Option String
  pub test : Bool
  pub data_part : Option WebhookData
  pub signature : Option String

abbrev number_entry : Option ℤ → JsonValue
number_entry none = undefined
number_entry (some n) = number n

abbrev text_entry : Option String → JsonValue
text_entry none = undefined
text_entry (some s) = string s

-- `payload.data`, key by key.
unfoldable pub data_entries : WebhookData → List Entry
data_entries d =
    ("orderCode", if d.order_code == 0 then undefined else number (pos d.order_code))
    ∷ ("amount", number_entry d.amount)
    ∷ ("code", text_entry d.code)
    ∷ ("description", text_entry d.description)
    ∷ d.others

pub data WebhookAnswer : Type 0 where
  verified payment_not_found not_successful received_for_canceled : WebhookAnswer
  already_fulfilled settled : WebhookAnswer

-- The first test of `handleWebhook`: a payload that only tries the address.
unfoldable pub is_trial : WebhookPayload → Bool
is_trial p =
    holds (λ u. not (str_eq u "")) p.webhook_url
    || (p.test
        || holds (λ d. d.order_code == 123 || same_text (some "VQRIO123") d.description)
            p.data_part)

-- From the payment's signed data on.
unfoldable pub judge_signed : WebhookData → PaymentView → Result (Action × WebhookAnswer)
judge_signed d v =
    if not (same_text (some "00") d.code)
    then ok (if is_pending v.payment.status then cancel v else leave, not_successful)
    else if is_canceled_payment v.payment.status || is_canceled v.order.status
    then ok (leave, received_for_canceled)
    else if not (amount_agrees d.amount v.payment.amount)
    then err validation
    else if is_paid v.payment.status && is_fulfilled v.order.status
    then ok (leave, already_fulfilled)
    else ok (settle v, settled)

-- From the lookup of the payment on.
unfoldable pub judge_webhook :
    Secrets → WebhookData → String → Database → Result (Action × WebhookAnswer)
unfolding require_credentials find_payment judge_signed
judge_webhook s d signature db = elim (find_payment d.order_code db) [
  | none ↦ ok (leave, payment_not_found)
  | some v ↦ do
    creds ← require_credentials s v.payment.store_id db
    ensure (verify_payos_signature s.hmac (data_entries d) signature creds.checksum_key) validation
    judge_signed d v
]

unfoldable pub webhook_decision :
    Secrets → WebhookPayload → Database → Result (Action × WebhookAnswer)
unfolding is_trial judge_webhook
webhook_decision s p db = if is_trial p then ok (leave, verified) else do
  d ← or_fail p.data_part validation
  signature ← or_fail p.signature validation
  ensure (not (str_eq signature "")) validation
  ensure (not (d.order_code == 0)) validation
  judge_webhook s d signature db

unfoldable pub handle_webhook :
    Secrets → ℕ → WebhookPayload → Database → Result (WebhookAnswer × Database)
handle_webhook s now p db = do
  (action, answer) ← webhook_decision s p db
  db' ← perform now action db
  ok (answer, db')

-- The state of a payment request as PayOS tells it.
pub data PayosStatus : Type 0 where
  paid cancelled expired : PayosStatus
  other : String → PayosStatus

pub record PayosState : Type 0 where
  pub status : PayosStatus
  pub amount : Option ℤ

pub data PollAnswer : Type 0 where
  paid_answer : String → ℕ → PollAnswer
  unknown_answer : PaymentStatus → PollAnswer
  unpaid_answer : PayosStatus → PollAnswer

-- What PayOS tells of the payment: `none` where the call of its interface throws.
unfoldable pub judge_state : PaymentView → Option PayosState → Result (Action × PollAnswer)
judge_state v none = ok (leave, unknown_answer v.payment.status)
judge_state v (some r) = elim r.status [
  | PayosStatus.paid ↦
      if amount_agrees r.amount v.payment.amount
      then ok (settle v, paid_answer v.order.order_number v.order.id)
      else err validation
  | PayosStatus.cancelled ↦ ok (cancel v, unpaid_answer PayosStatus.cancelled)
  | PayosStatus.expired ↦ ok (cancel v, unpaid_answer PayosStatus.expired)
  | PayosStatus.other s ↦ ok (leave, unpaid_answer (PayosStatus.other s))
]

unfoldable pub poll_decision :
    Secrets → ℕ → ℕ → (ℕ → Option PayosState) → Database → Result (Action × PollAnswer)
unfolding require_credentials find_payment judge_state
poll_decision s store code payos db = do
  creds ← require_credentials s store db
  v ← or_fail (find_payment code db) not_found
  ensure (v.payment.store_id == store) not_found
  if is_fulfilled v.order.status && is_paid v.payment.status
      then ok (leave, paid_answer v.order.order_number v.order.id)
      else judge_state v (payos code)

unfoldable pub check_payment_status :
    Secrets → ℕ → ℕ → ℕ → (ℕ → Option PayosState) → Database → Result (PollAnswer × Database)
check_payment_status s now store code payos db = do
  (action, answer) ← poll_decision s store code payos db
  db' ← perform now action db
  ok (answer, db')
