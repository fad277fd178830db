-- ===== src/Pricing/Repriced.antt =====
-- The change of a product's prices keeps the tables of prices in order: updateProduct.
use mathlib.Core.Option
use stock_pilot_be.Prelude.{
  ℕ, suc, ◌≡◌, ◌⊎◌, refl, sym, ap, ◌∙◌, Bool, true, false, not, ◌&&◌, Option, none, some, List, [],
  ◌∷◌, ◌==◌, ==_iff, All, map, filter_by, inl, inr, arith, Bool-cases, Option-cases, if◌then◌else◌,
}
use stock_pilot_be.Prelude.Int.{ℤ}
use stock_pilot_be.Prelude.Rows.{
  find_first, update_all, find_first-update_all, find_first-filter, find_first_fits, some_injective,
  All-find_first,
}
use stock_pilot_be.Schema.{StockItem}
use stock_pilot_be.Pricing.{PriceBook, PriceHistory, Columns, expire_pending_recommendations}
use stock_pilot_be.Pricing.Manual.{manual_histories, reprice, update_product_prices}
use stock_pilot_be.Pricing.Book.{IsBook, Follows, price_in, is_of_item}
use stock_pilot_be.Pricing.Steps.{expired-Follows}

-- What a filter leaves was there, and passes.
found_in_filter :
    {A : Type 0} (q g : A → Bool) (xs : List A) (s : A)
    → find_first q (filter_by g xs) ≡ some s
    → (g s ≡ true) × (t : A) × (find_first q xs ≡ some t)
found_in_filter q g [] s h = absurd (clash h)
  where
    clash : none ≡ some s → ⊥
    clash k = cc
found_in_filter q g (x ∷ xs) s h = elim (Bool-cases (g x)) [
  | inr e ↦
      let rest = found_in_filter q g xs s (rw e at h) in
      elim (Bool-cases (q x)) [
        | inl d ↦ (rest.0, x, rw d refl)
        | inr d ↦ (rest.0, rest.1, rw d rest.2)
      ]
  | inl e ↦ elim (Bool-cases (q x)) [
    | inl d ↦ (ap g (sym (some_injective (rw (e, d) at h))) ∙ e, x, rw d refl)
    | inr d ↦ let rest = found_in_filter q g xs s (rw (e, d) at h) in (rest.0, rest.1, rw d rest.2)
  ]
]

left_of : (a b : Bool) → (a && b) ≡ true → a ≡ true
left_of true b h = refl
left_of false b h = h

module _ {W : Type 0} (columns : Columns W) where
  -- The newest row of an item is a new one, or it is what it was.
  manual_newest :
      (next store : ℕ) (user : Option ℕ) (new : W) (changed : List StockItem)
      (rows : List PriceHistory) (j : ℕ) (h : PriceHistory)
      → find_first (is_of_item j) (manual_histories columns next store user new changed rows)
        ≡ some h
      → ((s : StockItem) × (find_first (λ x. x.id == j) changed ≡ some s)
          × (h.new_price ≡ columns.to_column new))
        ⊎ ((find_first (λ x. x.id == j) changed ≡ none) × (find_first (is_of_item j) rows ≡ some h))
  unfolding manual_histories
  manual_newest next store user new [] rows j h e = inr (refl, e)
  manual_newest next store user new (s ∷ ss) rows j h e = elim (Bool-cases (s.id == j)) [
    | inl d ↦ inl (s, rw d refl, sym (ap (λ k. k.new_price) (some_injective (rw d at e))))
    | inr d ↦ rw d (manual_newest (suc next) store user new ss rows j h (rw d at e))
  ]

  module _ (exact : (p : ℤ) (x : W) → columns.equals p x ≡ true → columns.to_column x ≡ p)
      (store : ℕ) (in_product : ℕ → Bool) where
    abbrev pub is_in : StockItem → Bool
    is_in s = in_product s.id && s.store_id == store

    -- The items as the write leaves them.
    abbrev written : Option W → Option W → List StockItem → List StockItem
    written selling cost = update_all is_in (reprice columns selling cost)

    -- What the write makes of an item's price.
    price_written :
        (selling cost : Option W) (items : List StockItem) (j : ℕ) (s : StockItem)
        → find_first (λ x. x.id == j) items ≡ some s
        → price_in (find_first (λ x. x.id == j) (written selling cost items))
          ≡ some
              (if is_in s then (reprice columns selling cost s).selling_price else s.selling_price)
    price_written selling cost items j s found =
        ap price_in (
          find_first-update_all is_in (λ x. x.id == j) (reprice columns selling cost) (λ x. refl)
            items
          ∙ ap (Option.map (λ x. if is_in x then reprice columns selling cost x else x)) found)
        ∙ at_row (is_in s)
      where
        at_row :
            (c : Bool)
            → price_in (some (if c then reprice columns selling cost s else s))
              ≡ some (if c then (reprice columns selling cost s).selling_price else s.selling_price)
        at_row true = refl
        at_row false = refl

    -- Items of one id are of one product.
    in_same :
        (j : ℕ) (t u : StockItem)
        → (t.id == j) ≡ true
        → (u.id == j) ≡ true
        → is_in t ≡ true
        → (in_product u.id ≡ true → u.store_id ≡ store)
        → is_in u ≡ true
    in_same j t u ft fu it same =
        let ids : t.id ≡ u.id = (==_iff _ _).0 ft ∙ sym ((==_iff _ _).0 fu) in
        let inside : in_product u.id ≡ true = rw ids at (left_of (in_product t.id) _ it) in
        rw (inside, same inside) ((==_iff store store).1 refl)

    -- An item of which no new row tells has the new price already, or keeps its own.
    unchanged :
        (new : W) (items : List StockItem) (j : ℕ) (s : StockItem) (h : PriceHistory)
        → find_first (λ x. x.id == j) items ≡ some s
        → find_first
            (λ x. x.id == j)
            (filter_by (λ s. not (columns.equals s.selling_price new)) (filter_by is_in items))
          ≡ none
        → s.selling_price ≡ h.new_price
        → (if is_in s then columns.to_column new else s.selling_price) ≡ h.new_price
    unchanged new items j s h found missing price = elim (Bool-cases (is_in s)) [
      | inr e ↦ rw e price
      | inl e ↦ elim (Bool-cases (columns.equals s.selling_price new)) [
        | inl d ↦ rw e (exact _ _ d ∙ price)
        | inr d ↦ absurd (
            clash_some (
              sym (
                find_first-filter (λ x. x.id == j) (λ s. not (columns.equals s.selling_price new)) _
                  s (find_first-filter (λ x. x.id == j) is_in items s found e) (rw d refl))
              ∙ missing))
      ]
    ]
      where
        clash_some : {A : Type 0} {a : A} → some a ≡ none → ⊥
        clash_some k = cc

    -- Where the items of the product are in its store, and were read as they are: a change of the
    -- selling price leaves its trace.
    traced_new :
        (next : ℕ) (user : Option ℕ) (new : W) (cost : Option W) (items : List StockItem)
        (rows : List PriceHistory)
        → All (λ s. in_product s.id ≡ true → s.store_id ≡ store) items
        → ((j : ℕ) (h : PriceHistory)
            → find_first (is_of_item j) rows ≡ some h
            → price_in (find_first (λ x. x.id == j) items) ≡ some h.new_price)
        → (j : ℕ) (h : PriceHistory)
        → find_first (is_of_item j) (
            manual_histories columns next store user new
              (filter_by (λ s. not (columns.equals s.selling_price new)) (filter_by is_in items))
              rows)
          ≡ some h
        → price_in (find_first (λ x. x.id == j) (written (some new) cost items)) ≡ some h.new_price
    traced_new next user new cost items rows same_store traced j h newest =
        elim (manual_newest next store user new _ rows j h newest) [
          | inl (s, found, is_new) ↦
              let one =
                found_in_filter (λ x. x.id == j) (λ x. not (columns.equals x.selling_price new))
                  (filter_by is_in items) s found in
              let two = found_in_filter (λ x. x.id == j) is_in items one.1 one.2 in
              price_written (some new) cost items j two.1 two.2
              ∙ rw
                  (in_same j one.1 two.1
                    (find_first_fits (λ x. x.id == j) (filter_by is_in items) one.1 one.2)
                    (find_first_fits (λ x. x.id == j) items two.1 two.2) two.0
                    (All-find_first (λ s. in_product s.id ≡ true → s.store_id ≡ store)
                      (λ x. x.id == j) items two.1 same_store two.2))
                  (rw is_new refl)
          | inr (missing, was) ↦ elim (Option-cases (find_first (λ x. x.id == j) items)) [
            | inl none_here ↦ absurd (clash (rw none_here at (traced j h was)))
            | inr (s, found) ↦
                let price = some_injective (rw found at (traced j h was)) in
                price_written (some new) cost items j s found
                ∙ ap some (unchanged new items j s h found missing price)
          ]
        ]
      where
        clash : {A : Type 0} {a : A} → none ≡ some a → ⊥
        clash k = cc

    -- A change of the cost alone leaves the prices.
    traced_kept :
        (cost : Option W) (items : List StockItem) (rows : List PriceHistory)
        → ((j : ℕ) (h : PriceHistory)
            → find_first (is_of_item j) rows ≡ some h
            → price_in (find_first (λ x. x.id == j) items) ≡ some h.new_price)
        → (j : ℕ) (h : PriceHistory) → find_first (is_of_item j) rows ≡ some h
        → price_in (find_first (λ x. x.id == j) (written none cost items)) ≡ some h.new_price
    traced_kept cost items rows traced j h was =
        elim (Option-cases (find_first (λ x. x.id == j) items)) [
          | inl none_here ↦ absurd (clash (rw none_here at (traced j h was)))
          | inr (s, found) ↦
              price_written none cost items j s found
              ∙ ap some (same (is_in s) ∙ some_injective (rw found at (traced j h was)))
        ]
      where
        clash : {A : Type 0} {a : A} → none ≡ some a → ⊥
        clash k = cc

        same : {p : ℤ} (c : Bool) → (if c then p else p) ≡ p
        same true = refl
        same false = refl

    pub update_product_prices-Follows :
        (user : Option ℕ) (existing : List StockItem) (selling cost : Option W) (b : PriceBook W)
        → IsBook b
        → All (λ s. in_product s.id ≡ true → s.store_id ≡ store) b.db.stock_items
        → existing ≡ filter_by is_in b.db.stock_items
        → Follows b (update_product_prices columns store user in_product existing selling cost b)
    unfolding update_product_prices expire_pending_recommendations
    update_product_prices-Follows user existing none none b book same_store current = record {
      book = book;
      decided = λ id r found closed. found;
    }
    update_product_prices-Follows user existing none (some c) b book same_store current =
        expired-Follows store (map (λ s. s.id) existing) b _ book (omega arith) refl
          (traced_kept (some c) b.db.stock_items b.histories book.traced)
    update_product_prices-Follows user existing (some new) cost b book same_store current =
        expired-Follows store (map (λ s. s.id) existing) b _ book (omega arith) refl (
          rw current (
            traced_new b.db.next_id user new cost b.db.stock_items b.histories same_store
              book.traced))
