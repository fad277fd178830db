-- ===== src/Payos/Deliver.antt =====
-- Webhooks and polls that act on one payment, one transaction after the other: pos-payos.service.ts.
use stock_pilot_be.Prelude.{
  ℕ, ◌≡◌, refl, some, List, [], ◌∷◌, inl, inr, ap, ◌∙◌, ◌⊎◌, subst, All, sym,
}
use stock_pilot_be.Prelude.Int.{◌+ℤ◌}
use stock_pilot_be.Prelude.Rows.{find_first}
use stock_pilot_be.Prelude.Result.{Result, ok, err, Ensures, Ensures-map, returns, fails}
use stock_pilot_be.Schema.{Database, PaymentStatus, Warehouse}
use stock_pilot_be.Ledger.{StockChangeItem}
use stock_pilot_be.Ledger.Normalize.{IsPositive}
use stock_pilot_be.Ledger.Posting.{on_hand, Keeps, Keeps-refl, Keeps-trans}
use stock_pilot_be.Ledger.Rest.{rest}
use stock_pilot_be.Orders.{deduct_lines, is_default_warehouse}
use stock_pilot_be.Orders.Stock.{IsSound, Keeps-IsSound}
use stock_pilot_be.Payos.{Action, PaymentView, leave, cancel, settle, perform, cancel_pending}
use stock_pilot_be.Payos.Settle.{
  IsClosed, set_payment-IsClosed, taken, Settled, Outcome, perform-Outcome,
}

-- Nothing of the stock, or of the warehouses, has changed.
record Untouched (db db' : Database) : Type 0 where
  stock : Keeps db db'
  warehouses : db'.warehouses ≡ db.warehouses

-- What any number of deliveries comes to.
data Progress (id : ℕ) (asked : List StockChangeItem) (w : Warehouse) (db db' : Database)
    : Type 0 where
  before : Untouched db db' → Progress id asked w db db'
  after : Settled id asked w db db' → Progress id asked w db db'

-- One action, of which an error leaves the tables as they were.
unfoldable pub attempt : ℕ → Action → Database → Database
attempt now action db = elim (perform now action db) [ ok db' ↦ db' | err _ ↦ db ]

-- The actions of webhooks and polls, in the order in which their transactions run.
unfoldable pub deliver : List (ℕ × Action) → Database → Database
unfolding attempt
deliver [] db = db
deliver ((now, action) ∷ rest) db = deliver rest (attempt now action db)

-- The action is about the payment, with the lines that its order has.
abbrev pub IsAbout : ℕ → ℕ → List StockChangeItem → Action → Type 0
IsAbout id store asked leave = Unit
IsAbout id store asked (cancel v) = v.payment.id ≡ id
IsAbout id store asked (settle v) =
    (v.payment.id ≡ id) × (v.payment.store_id ≡ store) × (deduct_lines v.items ≡ asked)

attempt_lem :
    (Q : Database → Type 0) (now : ℕ) (action : Action) (db : Database)
    → Ensures Q (perform now action db)
    → Q db
    → Q (attempt now action db)
unfolding attempt
attempt_lem Q now action db h q = by_result (perform now action db) h
  where
    by_result : (m : Result Database) → Ensures Q m → Q (elim m [ ok db' ↦ db' | err _ ↦ db ])
    by_result (ok x) (returns p) = p
    by_result (err e) fails = q

Settled-after :
    (id : ℕ) (asked : List StockChangeItem) (w : Warehouse) (a b c : Database)
    → Untouched a b
    → Settled id asked w b c
    → Settled id asked w a c
Settled-after id asked w a b c u done = record {
  closed = done.closed;
  stock = λ x j. done.stock x j ∙ ap (λ q. q +ℤ taken asked w x j) (u.stock.balances x j);
  sound = λ s. done.sound (Keeps-IsSound u.stock s);
  warehouses = done.warehouses ∙ u.warehouses;
}

-- The cancellation writes statuses alone, and closes the payment.
Settled-cancel :
    (id : ℕ) (asked : List StockChangeItem) (w : Warehouse) (a b : Database) (v : PaymentView)
    → v.payment.id ≡ id
    → Settled id asked w a b
    → Settled id asked w a (cancel_pending v b)
unfolding cancel_pending
Settled-cancel id asked w a b v e done = record {
  closed = rw (← e) (set_payment-IsClosed v.payment.id PaymentStatus.canceled b refl);
  stock = λ x j. done.stock x j;
  sound = λ s. Keeps-IsSound (record { movements = refl; balances = λ u j. refl }) (done.sound s);
  warehouses = done.warehouses;
}

module _ (id store : ℕ) (asked : List StockChangeItem) (w : Warehouse) (start : Database)
    (positive : IsPositive asked)
    (found : find_first (is_default_warehouse store) start.warehouses ≡ some w) where
  Progress-Outcome :
      (db db' : Database)
      → Progress id asked w start db
      → Outcome id asked w db db'
      → Progress id asked w start db'
  Progress-Outcome db db' p (inl same) = subst (Progress id asked w start) (sym same) p
  Progress-Outcome db db' (before u) (inr (same, done)) =
      after (Settled-after id asked w start db db' u done)
  Progress-Outcome db db' (after old) (inr (same, done)) =
      subst (Progress id asked w start) (sym (same old.closed)) (after old)

  Progress-warehouses :
      (db : Database) → Progress id asked w start db → db.warehouses ≡ start.warehouses
  Progress-warehouses db (before u) = u.warehouses
  Progress-warehouses db (after done) = done.warehouses

  settle-Progress :
      (now : ℕ) (v : PaymentView) (db : Database)
      → IsAbout id store asked (settle v)
      → Progress id asked w start db
      → Ensures (Progress id asked w start) (perform now (settle v) db)
  settle-Progress now v db (ei, es, el) p =
      Ensures-map
        (perform-Outcome now v w db (subst IsPositive (sym el) positive)
          (rw (Progress-warehouses db p, es) found))
        λ r outcome. Progress-Outcome db r p (
          subst (λ n. Outcome n asked w db r) ei
            (subst (λ ls. Outcome v.payment.id ls w db r) el outcome))

  attempt-Progress :
      (now : ℕ) (action : Action) (db : Database)
      → IsAbout id store asked action
      → Progress id asked w start db
      → Progress id asked w start (attempt now action db)
  unfolding attempt perform
  attempt-Progress now leave db about p = p
  attempt-Progress now (cancel v) db about (before u) = before (record {
    stock = Keeps-trans u.stock (record { movements = refl; balances = λ x j. refl });
    warehouses = u.warehouses;
  })
  attempt-Progress now (cancel v) db about (after done) =
      after (Settled-cancel id asked w start db v about done)
  attempt-Progress now (settle v) db about p =
      attempt_lem (Progress id asked w start) now (settle v) db (settle-Progress now v db about p) p

  deliver-Progress :
      (actions : List (ℕ × Action)) (db : Database)
      → All (λ a. IsAbout id store asked a.1) actions
      → Progress id asked w start db
      → Progress id asked w start (deliver actions db)
  unfolding deliver
  deliver-Progress [] db about p = p
  deliver-Progress ((now, action) ∷ rest) db about p =
      deliver-Progress rest (attempt now action db) about.1
        (attempt-Progress now action db about.0 p)

-- However many webhooks and polls act on one payment, in whatever order, and whichever of them fail:
-- either no quantity has changed, or the order's lines have been taken from the store's default
-- warehouse exactly once, and no row of the payment is pending.
pub deliver_once :
    (id store : ℕ) (asked : List StockChangeItem) (w : Warehouse) (actions : List (ℕ × Action))
    (db : Database)
    → IsPositive asked
    → find_first (is_default_warehouse store) db.warehouses ≡ some w
    → All (λ a. IsAbout id store asked a.1) actions
    → ((u j : ℕ) → on_hand u j (deliver actions db) ≡ on_hand u j db)
      ⊎ (IsClosed id (deliver actions db)
          × ((u j : ℕ) → on_hand u j (deliver actions db) ≡ on_hand u j db +ℤ taken asked w u j))
deliver_once id store asked w actions db positive found about =
    elim (deliver-Progress id store asked w db positive found actions db about
      (before (record { stock = Keeps-refl db; warehouses = refl }))) [
        | before u ↦ inl (λ x j. u.stock.balances x j)
        | after done ↦ inr (done.closed, done.stock)
      ]

-- Where the stock is sound and the lines are positive, it is sound after any of them too.
pub deliver-IsSound :
    (id store : ℕ) (asked : List StockChangeItem) (w : Warehouse) (actions : List (ℕ × Action))
    (db : Database)
    → IsPositive asked
    → find_first (is_default_warehouse store) db.warehouses ≡ some w
    → All (λ a. IsAbout id store asked a.1) actions
    → IsSound db
    → IsSound (deliver actions db)
deliver-IsSound id store asked w actions db positive found about sound =
    elim (deliver-Progress id store asked w db positive found actions db about
      (before (record { stock = Keeps-refl db; warehouses = refl }))) [
        | before u ↦ Keeps-IsSound u.stock sound
        | after done ↦ done.sound sound
      ]
