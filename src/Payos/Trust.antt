-- ===== src/Payos/Trust.antt =====
-- What a webhook must show before anything changes: pos-payos.service.ts.
use Prim.Native.String.{String}
use text.Mathlib.Text.{◌==◌ as str_eq}
use stock_pilot_be.Prelude.{
  ◌≡◌, refl, ◌&&◌, ◌||◌, Bool, true, false, some, List, Bool-cases, Option-cases, inl, inr,
}
use stock_pilot_be.Prelude.Result.{
  ok, or_fail-eq-ok, ensure-eq-ok, Ensures, Ensures-bind, Ensures-map, returns, fails,
}
use stock_pilot_be.Schema.{Database}
use stock_pilot_be.Orders.Status.{is_canceled, is_fulfilled}
use stock_pilot_be.Pos.{same_text}
use stock_pilot_be.Payos.Signature.{Entry, sign_data, verify_payos_signature}
use stock_pilot_be.Payos.{
  Action, PaymentView, leave, cancel, settle, Secrets, Credentials, WebhookData, WebhookPayload,
  data_entries, find_payment, require_credentials, amount_agrees, is_pending, is_paid,
  is_canceled_payment, judge_signed, judge_webhook, webhook_decision, is_trial,
}

-- The payment is the one of the data's order code, and the signature is the HMAC of the data under the
-- checksum key of the payment's own store.
pub record IsSigned (s : Secrets) (d : WebhookData) (signature : String) (v : PaymentView)
    (db : Database) : Type 0 where
  pub credentials : Credentials
  pub found : find_payment d.order_code db ≡ some v
  pub own_key : require_credentials s v.payment.store_id db ≡ ok credentials
  pub signed :
      str_eq (s.hmac credentials.checksum_key (sign_data (data_entries d))) signature ≡ true

-- What the data says of the payment, for each action on it.
pub data IsJustified (d : WebhookData) (v : PaymentView) : Action → Type 0 where
  nothing_done : IsJustified d v leave
  not_paid :
      same_text (some "00") d.code ≡ false
      → is_pending v.payment.status ≡ true
      → IsJustified d v (cancel v)
  is_due :
      same_text (some "00") d.code ≡ true
      → amount_agrees d.amount v.payment.amount ≡ true
      → is_canceled_payment v.payment.status ≡ false
      → is_canceled v.order.status ≡ false
      → IsJustified d v (settle v)

-- An action is taken on a payload with a signature, and with data that the signature covers and that
-- justify it.
pub data IsAuthorised (s : Secrets) (p : WebhookPayload) (db : Database) : Action → Type 0 where
  nothing_asked : IsAuthorised s p db leave
  trusted :
      (v : PaymentView) (signature : String) (d : WebhookData) {action : Action}
      → p.signature ≡ some signature
      → p.data_part ≡ some d
      → IsSigned s d signature v db
      → IsJustified d v action
      → IsAuthorised s p db action

neither : (a b : Bool) → (a || b) ≡ false → (a ≡ false) × (b ≡ false)
neither true b h = cc
neither false true h = cc
neither false false h = (refl, refl)

judge_signed-IsJustified :
    (d : WebhookData) (v : PaymentView) → Ensures (λ r. IsJustified d v r.0) (judge_signed d v)
unfolding judge_signed
judge_signed-IsJustified d v = elim (Bool-cases (same_text (some "00") d.code)) [
  | inr failed_code ↦ rw failed_code (elim (Bool-cases (is_pending v.payment.status)) [
    | inl open_ ↦ rw open_ (returns (not_paid failed_code open_))
    | inr closed ↦ rw closed (returns nothing_done)
  ])
  | inl success ↦
      rw success
        (elim (Bool-cases (is_canceled_payment v.payment.status || is_canceled v.order.status)) [
          | inl gone ↦ rw gone (returns nothing_done)
          | inr live ↦ rw live (elim (Bool-cases (amount_agrees d.amount v.payment.amount)) [
            | inr differs ↦ rw differs fails
            | inl agrees ↦
                rw agrees
                  (elim (Bool-cases (is_paid v.payment.status && is_fulfilled v.order.status)) [
                    | inl done ↦ rw done (returns nothing_done)
                    | inr open_ ↦
                        let (p, o) = neither _ _ live in
                        rw open_ (returns (is_due success agrees p o))
                  ])
          ])
        ])
]

both_true : (a b : Bool) → (a && b) ≡ true → b ≡ true
both_true true true h = refl
both_true true false h = cc
both_true false b h = cc

signed_by :
    (hmac : String → String → String) (es : List Entry) (signature key : String)
    → verify_payos_signature hmac es signature key ≡ true
    → str_eq (hmac key (sign_data es)) signature ≡ true
unfolding verify_payos_signature
signed_by hmac es signature key h = both_true _ _ (both_true _ _ h)

judge_webhook-IsAuthorised :
    (s : Secrets) (p : WebhookPayload) (d : WebhookData) (signature : String) (db : Database)
    → p.signature ≡ some signature
    → p.data_part ≡ some d
    → Ensures (λ r. IsAuthorised s p db r.0) (judge_webhook s d signature db)
unfolding judge_webhook
judge_webhook-IsAuthorised s p d signature db es ed =
    elim (Option-cases (find_payment d.order_code db)) [
      | inl missing ↦ rw (missing, judge_webhook) (returns nothing_asked)
      | inr (v, found) ↦
          rw (found, judge_webhook)
            (Ensures-bind λ creds ec. Ensures-bind λ u ev.
              Ensures-map (judge_signed-IsJustified d v) λ r h.
                trusted v signature d es ed
                  (record {
                    credentials = creds;
                    found = found;
                    own_key = ec;
                    signed = signed_by _ _ _ _ (ensure-eq-ok _ _ ev);
                  })
                  h)
    ]

-- A webhook acts only on a payment that its data's order code names, and only with data that carry the
-- HMAC under the checksum key of that payment's own store: it cancels a payment that is pending, on a
-- code other than "00", and settles, on the code "00" and an amount that agrees with the payment's or
-- is not given, a payment and an order neither of which is canceled.
pub webhook_decision-IsAuthorised :
    (s : Secrets) (p : WebhookPayload) (db : Database)
    → Ensures (λ r. IsAuthorised s p db r.0) (webhook_decision s p db)
unfolding webhook_decision
webhook_decision-IsAuthorised s p db = elim (Bool-cases (is_trial p)) [
  | inl trial ↦ rw trial (returns nothing_asked)
  | inr real ↦ rw real (
      Ensures-bind λ d ed. Ensures-bind λ signature es. Ensures-bind λ u eu. Ensures-bind λ u' ev.
        judge_webhook-IsAuthorised s p d signature db (or_fail-eq-ok _ _ es) (or_fail-eq-ok _ _ ed))
]
