-- ===== src/Payos/Remove.antt =====
-- The rows of a payment link's order, and their removal: pos-payos.service.ts.
use text.Mathlib.TextPositions.{compare_refl}
use stock_pilot_be.Ledger.{decimal}
use stock_pilot_be.Pos.{is_paid_before}
use stock_pilot_be.Prelude.{
  ℕ, suc, ◌+◌, ◌≡◌, refl, not, Bool, true, false, none, some, List, [], ◌∷◌, ◌++◌, ◌==◌, filter_by,
  length, All, ap, Option-cases, inl, inr, arith,
}
use stock_pilot_be.Prelude.Int.{ℤ}
use stock_pilot_be.Prelude.Rows.{find_first}
use stock_pilot_be.Prelude.Result.{Ensures, returns, fails}
use stock_pilot_be.Schema.{Database, Order, OrderItem, Payment}
use stock_pilot_be.Orders.Draft.{Decimals, RawLine}
use stock_pilot_be.Orders.{items_of}
use stock_pilot_be.Orders.Create.{clashes, new_items}
use stock_pilot_be.Payos.{find_payment, whole_units, has_code}
use stock_pilot_be.Payos.Link.{
  LinkDraft, PaymentLink, store_link, remove_order, pending_order, pending_items, pending_payment,
}

-- No row belongs to the order that comes next.
pub record IsFresh (db : Database) : Type 0 where
  pub orders : All (λ o. (o.id == db.next_id) ≡ false) db.orders
  pub items : All (λ i. (i.order_id == db.next_id) ≡ false) db.order_items
  pub payments : All (λ p. (p.order_id == db.next_id) ≡ false) db.payments

module _ {ℓ} {A : Type ℓ} (p : A → Bool) where
  filter_none : (xs : List A) → All (λ x. p x ≡ false) xs → filter_by p xs ≡ []
  filter_none [] h = refl
  filter_none (x ∷ xs) h = rw h.0 (filter_none xs h.1)

  filter_all : (xs : List A) → All (λ x. p x ≡ false) xs → filter_by (λ x. not (p x)) xs ≡ xs
  filter_all [] h = refl
  filter_all (x ∷ xs) h = rw h.0 (ap (λ ys. x ∷ ys) (filter_all xs h.1))

  filter_front :
      (xs ys : List A)
      → All (λ x. p x ≡ true) xs
      → filter_by p ys ≡ []
      → filter_by p (xs ++ ys) ≡ xs
  filter_front [] ys h e = e
  filter_front (x ∷ xs) ys h e = rw h.0 (ap (λ zs. x ∷ zs) (filter_front xs ys h.1 e))

  filter_back :
      (xs ys : List A)
      → All (λ x. p x ≡ true) xs
      → filter_by (λ x. not (p x)) (xs ++ ys) ≡ filter_by (λ x. not (p x)) ys
  filter_back [] ys h = refl
  filter_back (x ∷ xs) ys h = rw h.0 (filter_back xs ys h.1)

same_id : (n : ℕ) → (n == n) ≡ true
same_id n = ground arith

new_items-order :
    (id store order : ℕ) (ls : List RawLine) (amounts : List ℤ)
    → All (λ i. (i.order_id == order) ≡ true) (new_items id store order ls amounts)
unfolding new_items
new_items-order id store order [] amounts = tt
new_items-order id store order (l ∷ ls) [] = tt
new_items-order id store order (l ∷ ls) (q ∷ qs) =
    (same_id order, new_items-order (suc id) store order ls qs)

-- The tables, whatever the next id is.
abbrev pub tables : Database → Database
tables db = record db { next_id = 0 }

module _ (now store user code : ℕ) (draft : LinkDraft) (d : Decimals) (db : Database) where
  abbrev pub order : Order
  order = pending_order now store user code draft d db

  abbrev pub items : List OrderItem
  items = pending_items now store user code draft d db

  abbrev pub payment : Payment
  payment = pending_payment now store user code draft d db

  -- The tables with the order of the link.
  abbrev pub linked : Database
  linked = record db {
    next_id = suc (suc db.next_id + length items);
    orders = order ∷ db.orders;
    order_items = items ++ db.order_items;
    payments = payment ∷ db.payments;
  }

  abbrev pub offer : PaymentLink
  offer = record {
    order_id = db.next_id;
    order_number = order.order_number;
    order_code = code;
    amount = whole_units draft.total;
  }

  pub store_link-linked :
      Ensures (λ r. r ≡ ((order, items), linked)) (store_link now store user code draft d db)
  unfolding store_link
  store_link-linked =
      elim (Option-cases (find_first (clashes store order.order_number none) db.orders)) [
        | inr (old, clash) ↦ rw (clash, store_link) fails
        | inl free ↦
            rw (free, store_link)
              (elim (Option-cases (find_first (is_paid_before payment) db.payments)) [
                | inr (old, clash) ↦ rw clash fails
                | inl unpaid ↦ rw unpaid (returns refl)
              ])
      ]

  items-order : All (λ i. (i.order_id == db.next_id) ≡ true) items
  items-order = new_items-order (suc db.next_id) store db.next_id draft.lines _

  module _ (fresh : IsFresh db) where
    -- The link's order is removed without a trace.
    pub remove-linked : tables (remove_order db.next_id linked) ≡ tables db
    unfolding remove_order
    remove-linked = rw (same_id db.next_id) (
        rw
          (
            filter_all (λ o. o.id == db.next_id) db.orders fresh.orders,
            filter_back (λ i. i.order_id == db.next_id) items db.order_items items-order,
            filter_all (λ i. i.order_id == db.next_id) db.order_items fresh.items,
            filter_all (λ p. p.order_id == db.next_id) db.payments fresh.payments,
          )
          refl)

    items_of-linked : items_of db.next_id linked ≡ items
    items_of-linked =
        filter_front (λ i. i.order_id == db.next_id) items db.order_items items-order
          (filter_none (λ i. i.order_id == db.next_id) db.order_items fresh.items)

    -- The link's payment is found by its code.
    pub find_payment-linked :
        find_payment code linked ≡ some (record { payment = payment; order = order; items = items })
    unfolding find_payment
    find_payment-linked =
        rw (first_payment, find_payment)
          (rw (same_id db.next_id) (
            ap (λ x. some (record { payment = payment; order = order; items = x }))
              items_of-linked))
      where
        first_payment : find_first (has_code code) linked.payments ≡ some payment
        first_payment = rw (compare_refl (decimal code)) refl
