-- ===== src/Payos/Settle.antt =====
-- What the transactions of a webhook and of a poll do: pos-payos.service.ts.
use stock_pilot_be.Prelude.{
  ℕ, ◌≡◌, refl, ◌&&◌, Bool, true, false, none, some, List, [], ◌∷◌, ◌==◌, Bool-cases, Option-cases,
  inl, inr, ap, ◌∙◌, ◌⊎◌, if◌then◌else◌,
}
use stock_pilot_be.Prelude.Int.{ℤ, pos, ◌+ℤ◌, ◌-ℤ◌}
use stock_pilot_be.Prelude.Rows.{find_first, update_all}
use stock_pilot_be.Prelude.Result.{
  Result, ◌>>=◌, ok, err, Ensures, Ensures-call, Ensures-both, Ensures-map, returns, fails,
  validation, unauthenticated, forbidden, not_found, conflict, insufficient_stock, rate_limited,
  internal, unique_violation,
}
use stock_pilot_be.Schema.{Database, Payment, PaymentStatus, Warehouse}
use stock_pilot_be.Ledger.{StockChangeItem}
use stock_pilot_be.Ledger.Normalize.{requested, IsPositive}
use stock_pilot_be.Ledger.Posting.{on_hand}
use stock_pilot_be.Ledger.Deduct.{atomic_deduct-Journal}
use stock_pilot_be.Ledger.Effect.{atomic_deduct-on_hand}
use stock_pilot_be.Ledger.Rest.{atomic_deduct-rest}
use stock_pilot_be.Orders.{deduct_lines, is_default_warehouse}
use stock_pilot_be.Orders.Stock.{IsSound, Journal-IsSound, Keeps-IsSound}
use stock_pilot_be.Payos.{
  PaymentView, settle, perform, settle_once, settle_pending, or_settled, is_pending, is_pending_row,
  set_payment,
}

-- No row of the payment is pending.
abbrev pub IsClosed : ℕ → Database → Type 0
IsClosed id db = find_first (is_pending_row id) db.payments ≡ none

-- Writing a status other than pending to the pending rows closes the payment.
pub set_payment-IsClosed :
    (id : ℕ) (status : PaymentStatus) (db : Database)
    → is_pending status ≡ false
    → IsClosed id (set_payment id status db)
set_payment-IsClosed id status db h = closed db.payments
  where
    closed :
        (ps : List Payment)
        → find_first
            (is_pending_row id)
            (update_all (is_pending_row id) (λ p. record p { status = status }) ps)
          ≡ none
    closed [] = refl
    closed (p ∷ ps) = elim (Bool-cases (is_pending_row id p)) [
      | inl e ↦ rw e (rw (h, not_both (p.id == id)) (closed ps))
      | inr e ↦ rw e (rw e (closed ps))
    ]
      where
        not_both : (b : Bool) → (b && false) ≡ false
        not_both true = refl
        not_both false = refl

-- What a settlement takes from each quantity: the order's lines, from the default warehouse.
abbrev pub taken : List StockChangeItem → Warehouse → ℕ → ℕ → ℤ
taken asked w u j = if w.id == u then pos 0 -ℤ requested j asked else pos 0

-- The settlement took its lines once, and the payment is closed.
pub record Settled (id : ℕ) (asked : List StockChangeItem) (w : Warehouse) (db db' : Database)
    : Type 0 where
  pub closed : IsClosed id db'
  pub stock : (u j : ℕ) → on_hand u j db' ≡ on_hand u j db +ℤ taken asked w u j
  pub sound : IsSound db → IsSound db'
  pub warehouses : db'.warehouses ≡ db.warehouses

settle_pending-Settled :
    (now : ℕ) (v : PaymentView) (w : Warehouse) (db : Database)
    → IsPositive (deduct_lines v.items)
    → Ensures (Settled v.payment.id (deduct_lines v.items) w db) (settle_pending now v w db)
unfolding settle_pending
settle_pending-Settled now v w db positive =
    Ensures-call
      (Ensures-both (atomic_deduct-rest _ _ (deduct_lines v.items) _) (
        Ensures-both (atomic_deduct-Journal _ _ (deduct_lines v.items) _)
          (atomic_deduct-on_hand _ _ (deduct_lines v.items) _ positive)))
      λ r (kept, (journal, moved)). returns (record {
        closed =
            ap (λ x. find_first (is_pending_row v.payment.id) x.payments) kept
            ∙ set_payment-IsClosed v.payment.id PaymentStatus.paid db refl;
        stock = moved;
        sound = λ s.
            Keeps-IsSound (record { movements = refl; balances = λ u j. refl })
              (Journal-IsSound journal
                (Keeps-IsSound (record { movements = refl; balances = λ u j. refl }) s));
        warehouses = ap (λ x. x.warehouses) kept;
      })

pub or_settled_lem :
    (Q : Database → Type 0) (db : Database) (m : Result Database)
    → Ensures Q m
    → Ensures (λ r. (r ≡ db) ⊎ Q r) (or_settled db m)
unfolding or_settled
or_settled_lem Q db (ok a) (returns q) = returns (inr q)
or_settled_lem Q db (err unique_violation) fails = returns (inl refl)
or_settled_lem Q db (err validation) fails = fails
or_settled_lem Q db (err unauthenticated) fails = fails
or_settled_lem Q db (err forbidden) fails = fails
or_settled_lem Q db (err not_found) fails = fails
or_settled_lem Q db (err conflict) fails = fails
or_settled_lem Q db (err insufficient_stock) fails = fails
or_settled_lem Q db (err rate_limited) fails = fails
or_settled_lem Q db (err internal) fails = fails

-- A settlement leaves the tables as they were, or it found the payment pending and has settled it.
abbrev pub Outcome : ℕ → List StockChangeItem → Warehouse → Database → Database → Type 0
Outcome id asked w db db' = (db' ≡ db) ⊎ ((IsClosed id db → db' ≡ db) × Settled id asked w db db')

settle_once-Outcome :
    (now : ℕ) (v : PaymentView) (w : Warehouse) (db : Database)
    → IsPositive (deduct_lines v.items)
    → Ensures (Outcome v.payment.id (deduct_lines v.items) w db) (settle_once now v w db)
unfolding settle_once
settle_once-Outcome now v w db positive =
    elim (Option-cases (find_first (is_pending_row v.payment.id) db.payments)) [
      | inl none_left ↦ rw (none_left, settle_once) (returns (inl refl))
      | inr (p, found) ↦
          rw (found, settle_once)
            (Ensures-map (settle_pending-Settled now v w db positive)
              λ r done. inr (λ closed. cc, done))
    ]

pub perform-Outcome :
    (now : ℕ) (v : PaymentView) (w : Warehouse) (db : Database)
    → IsPositive (deduct_lines v.items)
    → find_first (is_default_warehouse v.payment.store_id) db.warehouses ≡ some w
    → Ensures (Outcome v.payment.id (deduct_lines v.items) w db) (perform now (settle v) db)
unfolding perform ◌>>=◌
perform-Outcome now v w db positive found = rw found (
    Ensures-map
      (or_settled_lem _ db (settle_once now v w db) (settle_once-Outcome now v w db positive))
      λ r h. elim h [ inl same ↦ inl same | inr outcome ↦ outcome ])
