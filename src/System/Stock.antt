-- ===== src/System/Stock.antt =====
-- The stock after any number of transactions of any of the services: src/modules.
use Prim.Native.String.{String}
use stock_pilot_be.Prelude.{
  ℕ, ◌≡◌, refl, true, false, Option, List, Option-cases, inl, inr, ap, subst, sym,
}
use stock_pilot_be.Prelude.Int.{ℤ}
use stock_pilot_be.Prelude.Rows.{find_first}
use stock_pilot_be.Prelude.Result.{
  err, Failure, ◌>>=◌, Result-cases, Ensures, Ensures-bind, Ensures-call, Ensures-ok, Ensures-map,
  returns, fails,
}
use stock_pilot_be.Schema.{Database, Warehouse}
use stock_pilot_be.Audit.{audit}
use stock_pilot_be.Ledger.Normalize.{IsPositive}
use stock_pilot_be.Ledger.Posting.{Keeps, Keeps-refl, Keeps-trans, on_hand}
use stock_pilot_be.Ledger.Deduct.{atomic_deduct-Journal}
use stock_pilot_be.Orders.Balance.{create_draft_order-Keeps}
use stock_pilot_be.Orders.Draft.{Decimals}
use stock_pilot_be.Orders.Stock.{
  IsSound, Journal-IsSound, Keeps-IsSound, confirm_order-IsSound, cancel_order-IsSound,
  fulfill_order-Keeps,
}
use stock_pilot_be.Returns.Stock.{create_return-IsSound}
use stock_pilot_be.Inventory.{target_warehouse}
use stock_pilot_be.Inventory.Count.{audit_stock-counted}
use stock_pilot_be.Inventory.Effect.{inflow-on_hand, outflow-on_hand}
use stock_pilot_be.Pos.{CreatePosSaleInput, create_cash_sale, cash_sale, unique_is_conflict}
use stock_pilot_be.Pos.Sale.{pos_items}
use stock_pilot_be.Pos.Stock.{create_cash_sale-on_hand}
use stock_pilot_be.StockTakes.{CountedItem, create_stock_take, start, update_counts, cancel}
use stock_pilot_be.StockTakes.Complete.{transition-state, complete-counted}
use stock_pilot_be.StockTakes.Status.{is_draft, is_open}
use stock_pilot_be.Payos.{
  Action, PaymentView, Secrets, leave, cancel as cancel_action, settle, perform, settle_once,
  settle_pending, cancel_pending, is_pending_row,
}
use stock_pilot_be.Payos.Code.{Draw}
use stock_pilot_be.Payos.Link.{
  CreatePayosLinkInput, PaymentLink, PayosReply, created, refused, interrupted, finish_link,
  create_payment_link,
}
use stock_pilot_be.Payos.Promise.{create_payment_link-cases}
use stock_pilot_be.Payos.Settle.{or_settled_lem}
use stock_pilot_be.System.{
  Step, Steps, none_yet, and_then, draft_step, confirm_step, fulfill_step, cancel_step, return_step,
  inflow_step, outflow_step, audit_step, sale_step, take_step, start_step, counts_step,
  complete_step, cancel_take_step, payment_step, link_step,
}

-- Whatever the decision was made from, its transaction keeps the stock sound.
settle_pending-IsSound :
    (now : ℕ) (v : PaymentView) (w : Warehouse) (db : Database)
    → IsSound db
    → Ensures IsSound (settle_pending now v w db)
unfolding settle_pending
settle_pending-IsSound now v w db sound = Ensures-call (atomic_deduct-Journal _ _ _ _) λ r journal.
    returns (
      Keeps-IsSound (record { movements = refl; balances = λ u j. refl })
        (Journal-IsSound journal
          (Keeps-IsSound (record { movements = refl; balances = λ u j. refl }) sound)))

settle_once-IsSound :
    (now : ℕ) (v : PaymentView) (w : Warehouse) (db : Database)
    → IsSound db
    → Ensures IsSound (settle_once now v w db)
unfolding settle_once
settle_once-IsSound now v w db sound =
    elim (Option-cases (find_first (is_pending_row v.payment.id) db.payments)) [
      | inl closed ↦ rw (closed, settle_once) (returns sound)
      | inr (p, found) ↦ rw (found, settle_once) (settle_pending-IsSound now v w db sound)
    ]

pub perform-IsSound :
    (now : ℕ) (action : Action) (db : Database)
    → IsSound db
    → Ensures IsSound (perform now action db)
unfolding perform cancel_pending
perform-IsSound now leave db sound = returns sound
perform-IsSound now (cancel_action v) db sound =
    returns (Keeps-IsSound (record { movements = refl; balances = λ u j. refl }) sound)
perform-IsSound now (settle v) db sound = Ensures-bind λ w ew.
    Ensures-map
      (or_settled_lem IsSound db (settle_once now v w db) (settle_once-IsSound now v w db sound))
      λ r h. elim h [ inl same ↦ subst IsSound (sym same) sound | inr kept ↦ kept ]

finish_link-Keeps :
    (link : PaymentLink) (reply : PayosReply) (db : Database)
    → Keeps db (finish_link link reply db).1
unfolding finish_link
finish_link-Keeps link created db = Keeps-refl db
finish_link-Keeps link (interrupted true) db = Keeps-refl db
finish_link-Keeps link (interrupted false) db = Keeps-refl db
finish_link-Keeps link refused db = record { movements = refl; balances = λ u j. refl }

create_payment_link-Keeps :
    (s : Secrets) (d : Decimals) (payos : ℕ → ℤ → PayosReply) (draws : ℕ → Draw)
    (now store user : ℕ) (input : CreatePayosLinkInput) (db : Database)
    → Keeps db (create_payment_link s d payos draws now store user input db).1
create_payment_link-Keeps s d payos draws now store user input db =
    create_payment_link-cases s d payos draws now store user input db (λ r. Keeps db r.1)
      (λ e. Keeps-refl db)
      (λ draft h.
        Keeps-trans (record { movements = refl; balances = λ u j. refl }) (finish_link-Keeps _ _ _))

-- Without a warehouse there is no sale.
no_sale :
    (d : Decimals) (now : ℕ) (number : String) (store user : ℕ) (input : CreatePosSaleInput)
    (key : Option String) (db : Database) (e : Failure)
    → target_warehouse store input.warehouse_id db ≡ err e
    → Ensures (λ r. IsSound r.1) (create_cash_sale d now number store user input key db)
unfolding create_cash_sale cash_sale unique_is_conflict ◌>>=◌
no_sale d now number store user input key db e missing = rw missing fails

sale-IsSound :
    (d : Decimals) (now : ℕ) (number : String) (store user : ℕ) (input : CreatePosSaleInput)
    (key : Option String) (db : Database)
    → IsPositive (pos_items input.items)
    → IsSound db
    → Ensures (λ r. IsSound r.1) (create_cash_sale d now number store user input key db)
sale-IsSound d now number store user input key db positive sound =
    elim (Result-cases (target_warehouse store input.warehouse_id db)) [
      | inl (w, e) ↦
          Ensures-map
            (create_cash_sale-on_hand d now number store user input key db w positive sound e)
            λ r h. h.0
      | inr (e, missing) ↦ no_sale d now number store user input key db e missing
    ]

start-Keeps :
    (now store id : ℕ) (db : Database) → Ensures (λ r. Keeps db r.1) (start now store id db)
unfolding start
start-Keeps now store id db = Ensures-call (transition-state store id is_draft _ db) λ r state.
    returns
      (record { movements = ap (λ x. x.movements) state; balances = λ u j. ap (on_hand u j) state })

update_counts-Keeps :
    (store id : ℕ) (items : List CountedItem) (db : Database)
    → Ensures (λ r. Keeps db r.1) (update_counts store id items db)
unfolding update_counts
update_counts-Keeps store id items db = Ensures-bind λ t et.
    Ensures-bind
      λ u eu. Ensures-bind λ rows er. returns (record { movements = refl; balances = λ u j. refl })

create_stock_take-Keeps :
    (store user warehouse : ℕ) (db : Database)
    → Ensures (λ r. Keeps db r.1) (create_stock_take store user warehouse db)
unfolding create_stock_take
create_stock_take-Keeps store user warehouse db =
    Ensures-bind λ w ew. returns (record { movements = refl; balances = λ u j. refl })

cancel-Keeps :
    (store user id : ℕ) (db : Database) → Ensures (λ r. Keeps db r.1) (cancel store user id db)
unfolding cancel audit
cancel-Keeps store user id db = Ensures-call (transition-state store id is_open _ db) λ r state.
    returns
      (record { movements = ap (λ x. x.movements) state; balances = λ u j. ap (on_hand u j) state })

Step-IsSound : {a b : Database} → Step a b → IsSound a → IsSound b
Step-IsSound (draft_step d now number store user input asked e) sound =
    Keeps-IsSound (Ensures-ok (create_draft_order-Keeps d now number store user input _) e).1 sound
Step-IsSound (confirm_step now store user id e) sound =
    Ensures-ok (confirm_order-IsSound now store user id _ sound) e
Step-IsSound (fulfill_step now store id user e) sound =
    Keeps-IsSound (Ensures-ok (fulfill_order-Keeps now store id user _) e) sound
Step-IsSound (cancel_step now store user id role e) sound =
    Ensures-ok (cancel_order-IsSound now store user id role _ sound) e
Step-IsSound (return_step d store user order number key requests e) sound =
    Ensures-ok (create_return-IsSound d store user order number key requests _ sound) e
Step-IsSound (inflow_step store user w generated reference key items positive e) sound =
    (Ensures-ok (inflow-on_hand store user w generated reference key items _ positive sound) e).0
Step-IsSound (outflow_step store user w generated reference key items positive e) sound =
    (Ensures-ok (outflow-on_hand store user w generated reference key items _ positive sound) e).0
Step-IsSound (audit_step store user w generated reference key items floor e) sound =
    (Ensures-ok (audit_stock-counted store user w generated reference key items _ floor sound) e).0
Step-IsSound (sale_step d now number store user input key positive e) sound =
    Ensures-ok (sale-IsSound d now number store user input key _ positive sound) e
Step-IsSound (take_step store user warehouse e) sound =
    Keeps-IsSound (Ensures-ok (create_stock_take-Keeps store user warehouse _) e) sound
Step-IsSound (start_step now store id e) sound =
    Keeps-IsSound (Ensures-ok (start-Keeps now store id _) e) sound
Step-IsSound (counts_step store id items e) sound =
    Keeps-IsSound (Ensures-ok (update_counts-Keeps store id items _) e) sound
Step-IsSound (complete_step now store user id key floor e) sound =
    (Ensures-ok (complete-counted now store user id key _ floor sound) e).0
Step-IsSound (cancel_take_step store user id e) sound =
    Keeps-IsSound (Ensures-ok (cancel-Keeps store user id _) e) sound
Step-IsSound (payment_step now action e) sound = Ensures-ok (perform-IsSound now action _ sound) e
Step-IsSound (link_step s d payos draws now store user input a) sound =
    Keeps-IsSound (create_payment_link-Keeps s d payos draws now store user input a) sound

-- Where the stock is sound, it is sound after any number of transactions of the services for orders,
-- returns, the inventory, the counter, stock takes and PayOS payments, in any order: no quantity is
-- negative, and the ledger explains every quantity. Quantities that goods come in, go out or are sold by
-- are positive, and counts are zero or more, as the request schemas promise.
pub Steps-IsSound : (a b : Database) → Steps a b → IsSound a → IsSound b
Steps-IsSound a b none_yet sound = sound
Steps-IsSound a c (and_then {b = b} before step) sound =
    Step-IsSound step (Steps-IsSound a b before sound)
