-- ===== src/Returns/Booking.antt =====
-- The steps of a return, by what they write: return.service.ts.
use Prim.Native.String.{String}
use stock_pilot_be.Prelude.{
  ℕ, ◌≡◌, refl, ◌&&◌, Bool, true, Option, none, some, List, [], ◌∷◌, ◌≢◌, Bool-cases, Option-cases,
  inl, inr, sym,
}
use stock_pilot_be.Prelude.Int.{ℤ, ◌+ℤ◌, ◌-ℤ◌, leb_ℤ}
use stock_pilot_be.Prelude.Rows.{find_first, update_first, holds, some_injective}
use stock_pilot_be.Prelude.Result.{Ensures, returns, fails}
use stock_pilot_be.Schema.{Database, OrderItem, Warehouse, ReturnItem}
use stock_pilot_be.Returns.{is_line, book_return, restock_returned, store_return, is_taken}
use stock_pilot_be.Ledger.{StockChangeItem}
use stock_pilot_be.Ledger.Rest.{rest, atomic_add-rest}

holds-found {ℓ} :
    {A : Type ℓ} (g : A → Bool) (o : Option A) → holds g o ≡ true → (a : A) × (o ≡ some a)
holds-found g none h = cc
holds-found g (some a) h = (a, refl)

-- A booking that fits has written the line that the lookup found.
abbrev pub booked : OrderItem → ℤ → ℤ → OrderItem
booked i q price = record i {
  refunded_amount = i.refunded_amount +ℤ price;
  returned_quantity = i.returned_quantity +ℤ q;
}

abbrev fits : OrderItem → ℤ → ℤ → OrderItem → Bool
fits line q price i =
    leb_ℤ i.returned_quantity (line.quantity -ℤ q)
    && leb_ℤ i.refunded_amount (line.refundable_amount -ℤ price)

pub book_return-eq-some :
    (store order id : ℕ) (line : OrderItem) (q price : ℤ) (rows rows' : List OrderItem)
    → book_return store order id line q price rows ≡ some rows'
    → (rows' ≡ update_first (is_line store order id) (λ i. booked i q price) rows)
      × (i : OrderItem) × (find_first (is_line store order id) rows ≡ some i)
unfolding book_return
book_return-eq-some store order id line q price rows rows' e =
    elim (Bool-cases (holds (fits line q price) (find_first (is_line store order id) rows))) [
      | inl good ↦
          let found = holds-found _ _ good in
          (sym (some_injective (rw good at e)), found.0, found.1)
      | inr bad ↦ absurd (none_some (rw bad at e))
    ]
  where
    none_some : {xs : List OrderItem} → none ≢ some xs
    none_some e = cc

pub restock_returned-rest :
    (store user : ℕ) (w : Warehouse) (number : String) (key : Option String)
    (xs : List StockChangeItem) (db : Database)
    → Ensures (λ r. rest r.1 ≡ rest db) (restock_returned store user w number key xs db)
unfolding restock_returned
restock_returned-rest store user w number key [] db = returns refl
restock_returned-rest store user w number key (x ∷ xs) db = atomic_add-rest _ _ (x ∷ xs) db

pub store_return-order_items :
    (store user order : ℕ) (number : String) (key : Option String) (items : List ReturnItem)
    (db : Database)
    → Ensures
        (λ r. r.1.order_items ≡ db.order_items)
        (store_return store user order number key items db)
unfolding store_return
store_return-order_items store user order number key items db =
    elim (Option-cases (find_first (is_taken store number key) db.return_orders)) [
      | inl free ↦ rw (free, store_return) (returns refl)
      | inr (old, clash) ↦ rw (clash, store_return) fails
    ]
