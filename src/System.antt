-- ===== src/System.antt =====
-- The services on one database: src/modules. Each transaction of a request is a step, with what the
-- request's schema promises, and requests of any store come in any order.
pub mod Stock
use Prim.Native.String.{String}
use stock_pilot_be.Prelude.{ℕ, ◌≡◌, ◌≢◌, Option, List, [], All}
use stock_pilot_be.Prelude.Int.{ℤ, pos, ◌≤ℤ◌}
use stock_pilot_be.Prelude.Result.{ok}
use stock_pilot_be.Schema.{
  Database, Role, Order, OrderItem, StockTake, ReturnOrder, ReturnItem, Payment, Warehouse,
  StockMovement,
}
use stock_pilot_be.Ledger.{StockChangeItem}
use stock_pilot_be.Ledger.Normalize.{IsPositive}
use stock_pilot_be.Orders.{confirm_order, fulfill_order, cancel_order}
use stock_pilot_be.Orders.Draft.{Decimals}
use stock_pilot_be.Orders.Create.{CreateOrderInput, create_draft_order}
use stock_pilot_be.Returns.{create_return}
use stock_pilot_be.Returns.Request.{ReturnRequest}
use stock_pilot_be.Inventory.{CountItem, inflow, outflow, audit_stock}
use stock_pilot_be.Pos.{CreatePosSaleInput, create_cash_sale}
use stock_pilot_be.Pos.Sale.{pos_items}
use stock_pilot_be.StockTakes.{
  CountedItem, create_stock_take, start, update_counts, items_to_count, complete, cancel,
}
use stock_pilot_be.Payos.{Action, Secrets, perform}
use stock_pilot_be.Payos.Code.{Draw}
use stock_pilot_be.Payos.Link.{CreatePayosLinkInput, PayosReply, create_payment_link}

-- One transaction that succeeds, from one database state to the next. A payment action is what a webhook
-- or a poll has decided on, maybe from an older state; a payment link changes the tables even where it
-- fails.
pub data Step : Database → Database → Type 0 where
  draft_step :
      (d : Decimals) (now : ℕ) (number : String) (store user : ℕ) (input : CreateOrderInput)
      {a b : Database} {o : Order × List OrderItem}
      → input.items ≢ []
      → create_draft_order d now number store user input a ≡ ok (o, b)
      → Step a b
  confirm_step :
      (now store user id : ℕ) {a b : Database} {o : Order}
      → confirm_order now store user id a ≡ ok (o, b)
      → Step a b
  fulfill_step :
      (now store id : ℕ) (user : Option ℕ) {a b : Database} {o : Order}
      → fulfill_order now store id user a ≡ ok (o, b)
      → Step a b
  cancel_step :
      (now store user id : ℕ) (role : Role) {a b : Database} {o : Order}
      → cancel_order now store user id role a ≡ ok (o, b)
      → Step a b
  return_step :
      (d : Decimals) (store user order : ℕ) (number : String) (key : Option String)
      (requests : List ReturnRequest) {a b : Database} {o : ReturnOrder × List ReturnItem}
      → create_return d store user order number key requests a ≡ ok (o, b)
      → Step a b
  inflow_step :
      (store user : ℕ) (warehouse : Option ℕ) (generated : String) (reference key : Option String)
      (items : List StockChangeItem) {a b : Database} {o : Warehouse × List StockMovement}
      → IsPositive items
      → inflow store user warehouse generated reference key items a ≡ ok (o, b)
      → Step a b
  outflow_step :
      (store user : ℕ) (warehouse : Option ℕ) (generated : String) (reference key : Option String)
      (items : List StockChangeItem) {a b : Database} {o : Warehouse × List StockMovement}
      → IsPositive items
      → outflow store user warehouse generated reference key items a ≡ ok (o, b)
      → Step a b
  audit_step :
      (store user : ℕ) (warehouse : Option ℕ) (generated : String) (reference key : Option String)
      (items : List CountItem) {a b : Database} {o : Warehouse × List StockMovement}
      → All (λ x. pos 0 ≤ℤ x.counted_quantity) items
      → audit_stock store user warehouse generated reference key items a ≡ ok (o, b)
      → Step a b
  sale_step :
      (d : Decimals) (now : ℕ) (number : String) (store user : ℕ) (input : CreatePosSaleInput)
      (key : Option String) {a b : Database} {o : (Order × List OrderItem) × Payment}
      → IsPositive (pos_items input.items)
      → create_cash_sale d now number store user input key a ≡ ok (o, b)
      → Step a b
  take_step :
      (store user warehouse : ℕ) {a b : Database} {t : StockTake}
      → create_stock_take store user warehouse a ≡ ok (t, b)
      → Step a b
  start_step :
      (now store id : ℕ) {a b : Database} {t : StockTake}
      → start now store id a ≡ ok (t, b)
      → Step a b
  counts_step :
      (store id : ℕ) (items : List CountedItem) {a b : Database} {t : StockTake}
      → update_counts store id items a ≡ ok (t, b)
      → Step a b
  complete_step :
      (now store user id : ℕ) (key : Option String) {a b : Database}
      {t : StockTake × List StockMovement}
      → All (λ x. pos 0 ≤ℤ x.counted_quantity) (items_to_count store id a)
      → complete now store user id key a ≡ ok (t, b)
      → Step a b
  cancel_take_step :
      (store user id : ℕ) {a b : Database} {t : StockTake}
      → cancel store user id a ≡ ok (t, b)
      → Step a b
  payment_step :
      (now : ℕ) (action : Action) {a b : Database} → perform now action a ≡ ok b → Step a b
  link_step :
      (s : Secrets) (d : Decimals) (payos : ℕ → ℤ → PayosReply) (draws : ℕ → Draw)
      (now store user : ℕ) (input : CreatePayosLinkInput) (a : Database)
      → Step a (create_payment_link s d payos draws now store user input a).1

-- Any number of transactions.
pub data Steps : Database → Database → Type 0 where
  none_yet : {a : Database} → Steps a a
  and_then : {a b c : Database} → Steps a b → Step b c → Steps a c
