-- ===== src/Payos/Promise.antt =====
-- What a payment link promises, and what a refused one leaves behind: pos-payos.service.ts.
use stock_pilot_be.Ledger.{StockChangeItem}
use stock_pilot_be.Orders.Balance.{new_items-refundable, new_items-subtotal}
use stock_pilot_be.Pos.Money.{pos_allocate-Paired, pos_lines-ne, sum_of_all}
use stock_pilot_be.Prelude.{
  ℕ, suc, ◌≡◌, ◌≢◌, refl, not, Bool, true, false, some, List, [], ◌∷◌, ◌==◌, length, ap, ◌∙◌, sym,
  subst, inl, inr, arith,
}
use stock_pilot_be.Prelude.Int.{ℤ, pos, ◌+ℤ◌, ◌-ℤ◌, ◌≤ℤ◌, ◌<ℤ◌, ltb_ℤ-le, ltb_ℤ}
use stock_pilot_be.Prelude.Result.{
  Result, Failure, ok, err, ok_injective, Result-cases, Ensures-ok, ensure-eq-ok, Ensures,
  Ensures-bind, Ensures-call, returns,
}
use stock_pilot_be.Schema.{Database, OrderStatus, PaymentStatus}
use stock_pilot_be.Orders.Draft.{Decimals, IsExact, subtotal_of, sum_ℤ}
use stock_pilot_be.Orders.Create.{IsBalanced}
use stock_pilot_be.Payos.{Secrets, PaymentView, find_payment, whole_units}
use stock_pilot_be.Payos.Link.{
  CreatePayosLinkInput, LinkDraft, PayosReply, PaymentLink, refused, created, interrupted,
  create_payment_link, draft_link, store_link, finish_link, pending_order, pending_items,
  is_code_taken,
}
use stock_pilot_be.Payos.Code.{Draw, unique_order_code}
use stock_pilot_be.Payos.Remove.{
  IsFresh, tables, linked, offer, store_link-linked, remove-linked, find_payment-linked, order,
  items, payment,
}

-- What has been checked when the order is stored.
record IsPriced (draft : LinkDraft) : Type 0 where
  some_line : draft.lines ≢ []
  subtotal : draft.subtotal ≡ subtotal_of draft.lines
  total : draft.total ≡ draft.subtotal -ℤ draft.discount +ℤ draft.tax
  within : draft.discount ≤ℤ draft.subtotal
  due : pos 0 <ℤ whole_units draft.total

unflipped : (b : Bool) → not b ≡ true → b ≡ false
unflipped true h = cc
unflipped false h = refl

some_items : (xs : List StockChangeItem) → not (length xs == 0) ≡ true → xs ≢ []
some_items [] h e = cc
some_items (x ∷ xs) h e = cc

above_zero : (q : ℤ) → ltb_ℤ (pos 0) q ≡ true → pos 0 <ℤ q
above_zero q h = ground arith

draft_link-IsPriced :
    (s : Secrets) (d : Decimals) (store : ℕ) (input : CreatePayosLinkInput) (db : Database)
    → IsExact d
    → Ensures IsPriced (draft_link s d store input db)
unfolding draft_link
draft_link-IsPriced s d store input db exact = Ensures-bind λ c ec. Ensures-bind λ w ew.
    Ensures-bind λ more em. Ensures-bind λ all_there ea. Ensures-bind λ stocked es.
      Ensures-call (pos_lines-ne d [] _ _ (some_items _ (ensure-eq-ok _ _ em))) λ ls some_line.
        Ensures-bind λ a ea'. Ensures-bind λ b eb. Ensures-bind λ t et. Ensures-bind λ u eu.
          returns (record {
            some_line = some_line;
            subtotal = refl;
            total = exact.rounded _;
            within =
                ltb_ℤ-le (subtotal_of ls) (d.round input.discount_amount)
                  (unflipped _ (ensure-eq-ok _ _ eb));
            due = above_zero _ (ensure-eq-ok _ _ eu);
          })

-- The link names a payment that a webhook or a poll finds by its code, with the order of the link: the
-- payment is pending and the order a draft, and PayOS is asked for the payment's amount in whole units.
pub record IsPromised (link : PaymentLink) (db : Database) : Type 0 where
  pub view : PaymentView
  pub found : find_payment link.order_code db ≡ some view
  pub pending : view.payment.status ≡ PaymentStatus.pending
  pub draft : view.order.status ≡ OrderStatus.draft
  pub same_order : view.order.id ≡ link.order_id
  pub asked : link.amount ≡ whole_units view.payment.amount
  pub due : pos 0 <ℤ link.amount
  pub whole : view.payment.amount ≡ view.order.total_amount
  pub balanced : IsBalanced view.order view.items

module _ (now store user code : ℕ) (draft : LinkDraft) (d : Decimals) (db : Database)
    (exact : IsExact d) (priced : IsPriced draft) where
  pending-IsBalanced :
      IsBalanced
        (pending_order now store user code draft d db)
        (pending_items now store user code draft d db)
  pending-IsBalanced =
      let pairs =
        pos_allocate-Paired d draft.subtotal draft.discount draft.tax draft.total (pos 0)
          draft.lines in
      record {
        total = priced.total;
        refundable =
            ap sum_ℤ (new_items-refundable (suc db.next_id) store db.next_id pairs)
            ∙ sum_of_all d exact draft.subtotal draft.discount draft.tax draft.total draft.lines
                priced.some_line;
        subtotals =
            new_items-subtotal (suc db.next_id) store db.next_id pairs ∙ sym priced.subtotal;
        discount = priced.within;
      }

  offer-IsPromised :
      IsFresh db
      → IsPromised (offer now store user code draft d db) (linked now store user code draft d db)
  offer-IsPromised fresh = record {
    view = record {
      payment = payment now store user code draft d db;
      order = order now store user code draft d db;
      items = items now store user code draft d db;
    };
    found = find_payment-linked now store user code draft d db fresh;
    pending = refl;
    draft = refl;
    same_order = refl;
    asked = refl;
    due = priced.due;
    whole = refl;
    balanced = pending-IsBalanced;
  }

  finish-IsPromised :
      (reply : PayosReply) (link : PaymentLink)
      → IsFresh db
      → (finish_link
          (offer now store user code draft d db)
          reply
          (linked now store user code draft d db)).0
        ≡ ok link
      → IsPromised link
          (finish_link
            (offer now store user code draft d db)
            reply
            (linked now store user code draft d db)).1
  unfolding finish_link
  finish-IsPromised created link fresh h =
      subst (λ l. IsPromised l (linked now store user code draft d db)) (ok_injective h)
        (offer-IsPromised fresh)
  finish-IsPromised (interrupted true) link fresh h =
      subst (λ l. IsPromised l (linked now store user code draft d db)) (ok_injective h)
        (offer-IsPromised fresh)
  finish-IsPromised (interrupted false) link fresh h = cc
  finish-IsPromised refused link fresh h = cc

-- The reply of PayOS makes the link, or it was made before the reply got lost.
pub data WasMade : PayosReply → Type 0 where
  at_once : WasMade created
  meanwhile : WasMade (interrupted true)

finish-WasMade :
    (offered : PaymentLink) (reply : PayosReply) (link : PaymentLink) (db : Database)
    → (finish_link offered reply db).0 ≡ ok link
    → WasMade reply × (offered ≡ link)
unfolding finish_link
finish-WasMade offered created link db h = (at_once, ok_injective h)
finish-WasMade offered (interrupted true) link db h = (meanwhile, ok_injective h)
finish-WasMade offered (interrupted false) link db h = cc
finish-WasMade offered refused link db h = cc

module _ (s : Secrets) (d : Decimals) (payos : ℕ → ℤ → PayosReply) (draws : ℕ → Draw)
    (now store user : ℕ) (input : CreatePayosLinkInput) (db : Database) where
  -- The code that the request draws.
  abbrev code_of : ℕ
  code_of = unique_order_code store draws (is_code_taken db)

  -- An order is stored, and then the reply decides; or nothing is stored, and an error is returned.
  pub create_payment_link-cases :
      (P : Result PaymentLink × Database → Type 0)
      → ((e : Failure) → P (err e, db))
      → ((draft : LinkDraft)
          → draft_link s d store input db ≡ ok draft
          → P (
              finish_link
                (offer now store user code_of draft d db)
                (payos code_of (whole_units draft.total))
                (linked now store user code_of draft d db)))
      → P (create_payment_link s d payos draws now store user input db)
  unfolding create_payment_link
  create_payment_link-cases P failed stores = elim (Result-cases (draft_link s d store input db)) [
    | inr (e, h) ↦ rw (h, create_payment_link) (failed e)
    | inl (draft, h) ↦
        rw (h, create_payment_link)
          (elim (Result-cases (store_link now store user code_of draft d db)) [
            | inr (e, k) ↦ rw k (failed e)
            | inl (r, k) ↦
                rw (k, Ensures-ok (store_link-linked now store user code_of draft d db) k)
                  (stores draft h)
          ])
  ]

  -- If the decimals are exact on amounts with two decimals and no row belongs to the order that comes
  -- next: a link that is returned names a payment that its code finds in the tables, pending and of the
  -- whole total of a draft order that is balanced to the smallest unit; its amount is that total in whole
  -- units, more than zero; and PayOS, asked for a link of just that code and amount, has made it.
  pub create_payment_link-IsPromised :
      (link : PaymentLink)
      → IsExact d
      → IsFresh db
      → (create_payment_link s d payos draws now store user input db).0 ≡ ok link
      → IsPromised link (create_payment_link s d payos draws now store user input db).1
        × WasMade (payos link.order_code link.amount)
  create_payment_link-IsPromised link exact fresh =
      create_payment_link-cases
        (λ r. r.0 ≡ ok link → IsPromised link r.1 × WasMade (payos link.order_code link.amount))
        (λ e h. cc)
        (λ draft h k.
          let (made, same) = finish-WasMade _ (payos code_of (whole_units draft.total)) link _ k in
          (
            finish-IsPromised now store user code_of draft d db exact
                (Ensures-ok (draft_link-IsPriced s d store input db exact) h)
                (payos code_of (whole_units draft.total)) link fresh k,
            subst (λ l. WasMade (payos l.order_code l.amount)) same made,
          ))

  -- If no row belongs to the order that comes next, a request that PayOS refuses leaves the tables as
  -- they were, but for the ids that are used up.
  pub create_payment_link-refused :
      IsFresh db
      → ((code : ℕ) (amount : ℤ) → payos code amount ≡ refused)
      → tables (create_payment_link s d payos draws now store user input db).1 ≡ tables db
  unfolding finish_link
  create_payment_link-refused fresh refuses =
      create_payment_link-cases (λ r. tables r.1 ≡ tables db) (λ e. refl)
        (λ draft h.
          rw (refuses code_of (whole_units draft.total))
            (remove-linked now store user code_of draft d db fresh))
