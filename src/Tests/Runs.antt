-- ===== src/Tests/Runs.antt =====
-- The services run on the shop.
use stock_pilot_be.Prelude.{◌≡◌, refl, some, none, List, [], ◌∷◌}
use stock_pilot_be.Prelude.Int.{ℤ, pos, ◌+ℤ◌, ◌-ℤ◌, ◌*ℤ◌}
use stock_pilot_be.Prelude.Result.{Result, ok, err, ◌>>=◌, conflict}
use stock_pilot_be.Schema.{Database, Order, MovementType, shop_owner}
use stock_pilot_be.Ledger.{
  atomic_deduct, atomic_add, deduct_item, add_item, create_movement, replace_with_count,
}
use stock_pilot_be.Ledger.Posting.{on_hand}
use stock_pilot_be.Audit.{audit}
use stock_pilot_be.Orders.{advance_order, confirm_order, cancel_order, fulfill_order}
use stock_pilot_be.Orders.Create.{create_draft_order, store_order}
use stock_pilot_be.Orders.Draft.{raw_lines}
use stock_pilot_be.Returns.{create_return}
use stock_pilot_be.Inventory.{inflow, outflow, audit_stock}
use stock_pilot_be.StockTakes.{start, update_counts, complete, cancel, transition}
use stock_pilot_be.Inventory.{audit_item, audit_items}
use stock_pilot_be.Ledger.{ensure_balance, item_key, normalize_items, set_balance}
use stock_pilot_be.Returns.{restock_returned, return_line, return_lines, store_return}
use stock_pilot_be.Returns.Refund.{refund_price}
use stock_pilot_be.Returns.Request.{merge_from, merge_request, merge_requests}
use stock_pilot_be.StockTakes.{complete_item, complete_items, write_counts}
use stock_pilot_be.Tests.Cents.{in_thousandths}
use stock_pilot_be.Tests.Shop.{
  shop, plain, lines, context, order_input, return_requests, counts, takes,
}

-- The stock of the two items after a call.
abbrev shelves : {A : Type 0} → Result (A × Database) → Result (List ℤ)
shelves (ok (a, db)) = ok (on_hand 1 10 db ∷ on_hand 1 11 db ∷ [])
shelves (err e) = err e

deduct_runs :
    shelves (atomic_deduct context MovementType.outflow lines shop) ≡ ok (pos 3 ∷ pos 0 ∷ [])
unfolding atomic_deduct deduct_item create_movement ◌>>=◌ ◌+ℤ◌ ◌-ℤ◌
deduct_runs = refl

add_runs : shelves (atomic_add context MovementType.inflow lines shop) ≡ ok (pos 7 ∷ pos 6 ∷ [])
unfolding atomic_add add_item create_movement ◌>>=◌ ◌+ℤ◌ ◌-ℤ◌
add_runs = refl

count_runs :
    shelves (replace_with_count context 10 (pos 9) MovementType.audit_adjustment shop)
    ≡ ok (pos 9 ∷ pos 3 ∷ [])
unfolding replace_with_count create_movement ◌>>=◌ ◌+ℤ◌ ◌-ℤ◌
count_runs = refl

-- Confirming order 100 takes its two units; a second confirmation is refused.
confirm_runs : shelves (confirm_order 7 1 5 100 shop) ≡ ok (pos 3 ∷ pos 3 ∷ [])
unfolding confirm_order advance_order audit atomic_deduct deduct_item create_movement ◌>>=◌ ◌+ℤ◌
    ◌-ℤ◌
confirm_runs = refl

confirmed_twice :
    shelves (confirm_order 7 1 5 100 shop >>= λ r. confirm_order 8 1 5 100 r.1) ≡ err conflict
unfolding confirm_order advance_order audit atomic_deduct deduct_item create_movement ◌>>=◌ ◌+ℤ◌
    ◌-ℤ◌
confirmed_twice = refl

-- Order 200 is fulfilled: it is not confirmed again, and a cancellation gives its three units back.
cancel_runs : shelves (cancel_order 7 1 5 200 shop_owner shop) ≡ ok (pos 5 ∷ pos 6 ∷ [])
unfolding cancel_order audit atomic_add add_item create_movement ◌>>=◌ ◌+ℤ◌ ◌-ℤ◌
cancel_runs = refl

fulfill_runs :
    shelves (confirm_order 7 1 5 100 shop >>= λ r. fulfill_order 8 1 100 none r.1)
    ≡ ok (pos 3 ∷ pos 3 ∷ [])
unfolding fulfill_order confirm_order advance_order audit atomic_deduct deduct_item create_movement
    ◌>>=◌ ◌+ℤ◌ ◌-ℤ◌
fulfill_runs = refl

create_runs :
    shelves (create_draft_order plain 7 "NEW" 1 5 order_input shop) ≡ ok (pos 5 ∷ pos 3 ∷ [])
unfolding create_draft_order store_order ◌>>=◌ ◌+ℤ◌ ◌-ℤ◌ normalize_items raw_lines ◌*ℤ◌
create_runs = refl

abbrev money_of : {A B : Type 0} → Result ((Order × A) × B) → Result (ℤ × ℤ × ℤ)
money_of (ok ((o, items), b)) = ok (o.subtotal_amount, o.discount_amount, o.total_amount)
money_of (err e) = err e

-- Five units at 1.000 each with a discount of 0.005: what is stored is not balanced.
half_cent :
    money_of (
      create_draft_order in_thousandths 7 "NEW" 1 5
        (record order_input { discount_amount = pos 5; tax_amount = pos 0 })
        shop)
    ≡ ok (pos 5_000, pos 10, pos 5_000)
unfolding create_draft_order store_order ◌>>=◌ ◌+ℤ◌ ◌-ℤ◌ normalize_items raw_lines ◌*ℤ◌
half_cent = refl

-- Two of the three units of order 200 come back, one of them in each of two requests.
return_runs :
    shelves (create_return plain 1 5 200 "RET" none return_requests shop) ≡ ok (pos 5 ∷ pos 5 ∷ [])
unfolding create_return audit atomic_add add_item create_movement ◌>>=◌ ◌+ℤ◌ ◌-ℤ◌ ◌*ℤ◌
    merge_requests merge_from merge_request return_lines return_line refund_price restock_returned
    store_return
return_runs = refl

inflow_runs : shelves (inflow 1 5 none "IN" none none lines shop) ≡ ok (pos 7 ∷ pos 6 ∷ [])
unfolding inflow atomic_add add_item create_movement ◌>>=◌ ◌+ℤ◌ ◌-ℤ◌ audit
inflow_runs = refl

outflow_runs : shelves (outflow 1 5 none "OUT" none none lines shop) ≡ ok (pos 3 ∷ pos 0 ∷ [])
unfolding outflow atomic_deduct deduct_item create_movement ◌>>=◌ ◌+ℤ◌ ◌-ℤ◌ audit
outflow_runs = refl

audit_runs :
    shelves (audit_stock 1 5 (some 1) "AUDIT" none (some "K") counts shop) ≡ ok (pos 8 ∷ pos 0 ∷ [])
unfolding audit_stock create_movement ◌>>=◌ ◌+ℤ◌ ◌-ℤ◌ audit_items audit_item item_key audit
    set_balance ensure_balance
audit_runs = refl

start_runs : shelves (start 7 1 300 shop) ≡ ok (pos 5 ∷ pos 3 ∷ [])
unfolding start transition ◌>>=◌
start_runs = refl

update_runs : shelves (update_counts 1 301 takes shop) ≡ ok (pos 5 ∷ pos 3 ∷ [])
unfolding update_counts ◌>>=◌ ◌+ℤ◌ ◌-ℤ◌ write_counts
update_runs = refl

complete_runs : shelves (complete 7 1 5 301 none shop) ≡ ok (pos 4 ∷ pos 3 ∷ [])
unfolding complete transition create_movement ◌>>=◌ ◌+ℤ◌ ◌-ℤ◌ complete_items complete_item
    ensure_balance audit set_balance
complete_runs = refl

-- A stock take that was canceled cannot be started.
canceled_start : shelves (cancel 1 5 300 shop >>= λ r. start 7 1 300 r.1) ≡ err conflict
unfolding cancel start transition audit ◌>>=◌
canceled_start = refl
