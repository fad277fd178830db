-- ===== src/Pricing/Applied.antt =====
-- What an accepted and a modified recommendation do to the price of its item.
use mathlib.Core.Option
use stock_pilot_be.Prelude.{
  ℕ, ◌≡◌, ◌≢◌, refl, ap, ◌∙◌, Bool, true, false, not, some, ◌==◌, ==_iff, arith, if◌then◌else◌,
}
use stock_pilot_be.Prelude.Int.{ℤ}
use stock_pilot_be.Prelude.Rows.{
  find_first, update_first, find_first-update_self, find_first-update_ne, holds,
}
use stock_pilot_be.Prelude.Result.{
  Ensures, Ensures-bind, Ensures-call, Ensures-of, returns, ensure-eq-ok,
}
use stock_pilot_be.Schema.{StockItem}
use stock_pilot_be.Audit.{audit}
use stock_pilot_be.Floats.{Floats}
use stock_pilot_be.Pricing.{
  PricingRecommendation, PriceHistory, PriceBook, Columns, RecommendationStatus, accepted, modified,
  has_id, decide, write_decision, log_decision, apply_price, price_entry,
}
use stock_pilot_be.Pricing.Decisions.{
  accept_recommendation, modify_recommendation, current_floor, assert_recommendation_still_valid,
  number_of,
}
use stock_pilot_be.Pricing.Book.{selling_price_of, price_in, is_of_item}
use stock_pilot_be.Pricing.Open.{
  false_of_not, IsOpen, IsAtPrice, get_pending-IsOpen, not_stale-IsAtPrice,
}
use Prim.Native.String.{String}

-- The history's row for a price that was set.
pub record IsRecorded {W : Type 0} (r : PricingRecommendation W) (new : ℤ) (h : PriceHistory)
    : Type 0 where
  pub of_item : h.stock_item_id ≡ r.stock_item_id
  pub old : h.old_price ≡ r.current_price
  pub set_to : h.new_price ≡ new
  pub reason : h.recommendation_id ≡ some r.id

-- The open recommendation `r` was decided on, for the price `new`: its item had the price that the
-- recommendation was made for, and has the new one if it was to be applied; no other item has another
-- price; the row says who decided what and when; and an applied price is the newest of the history.
pub record IsPriced {W : Type 0} (store user now id : ℕ) (status : RecommendationStatus) (new : ℤ)
    (applied : Bool) (r : PricingRecommendation W) (b b' : PriceBook W) : Type 0 where
  pub was_open : IsOpen now store id b r
  pub before : selling_price_of r.stock_item_id b ≡ some r.current_price
  pub after : selling_price_of r.stock_item_id b' ≡ some (if applied then new else r.current_price)
  pub others : (j : ℕ) → j ≢ r.stock_item_id → selling_price_of j b' ≡ selling_price_of j b
  pub row : find_first (has_id id) b'.recommendations ≡ some (decide status (some new) user now r)
  pub recorded :
      applied ≡ true
      → (h : PriceHistory) × (find_first (is_of_item r.stock_item_id) b'.histories ≡ some h)
        × IsRecorded r new h

module _ {W : Type 0} where
  decided_row :
      (store user now id : ℕ) (status : RecommendationStatus) (new : ℤ)
      (r : PricingRecommendation W) (b : PriceBook W)
      → IsOpen now store id b r
      → find_first
          (has_id id)
          (update_first (has_id id) (decide status (some new) user now) b.recommendations)
        ≡ some (decide status (some new) user now r)
  decided_row store user now id status new r b is_open =
      find_first-update_self (has_id id) (decide status (some new) user now) (λ x. refl)
        b.recommendations
      ∙ ap (Option.map (decide status (some new) user now)) is_open.found

  priced :
      (store user now id : ℕ) (status : RecommendationStatus) (source action : String)
      (applied : Bool) (r : PricingRecommendation W) (s : StockItem) (new : ℤ) (b : PriceBook W)
      → IsOpen now store id b r
      → IsAtPrice store r.stock_item_id r.current_price b s
      → let b1 = write_decision id (decide status (some new) user now) b in
        IsPriced store user now id status new applied r b (
          log_decision store user action r
            (if applied then apply_price store user source r s.selling_price new b1 else b1))
  unfolding audit apply_price
  priced store user now id status source action false r s new b is_open at = record {
    was_open = is_open;
    before = ap price_in at.found ∙ ap some at.at_price;
    after = ap price_in at.found ∙ ap some at.at_price;
    others = λ j h. refl;
    row = decided_row store user now id status new r b is_open;
    recorded = λ e. cc;
  }
  priced store user now id status source action true r s new b is_open at = record {
    was_open = is_open;
    before = ap price_in at.found ∙ ap some at.at_price;
    after = ap price_in (
        find_first-update_self (λ x. x.id == r.stock_item_id)
          (λ x. record x { selling_price = new }) (λ x. refl) b.db.stock_items
        ∙ ap (Option.map {A = StockItem} (λ x. record x { selling_price = new })) at.found);
    others = λ j h. ap price_in (
        find_first-update_ne (λ x. x.id == r.stock_item_id) (λ x. x.id == j)
          (λ x. record x { selling_price = new }) (λ x. refl) (λ x fits. away j x h fits)
          b.db.stock_items);
    row = decided_row store user now id status new r b is_open;
    recorded = λ e. (
      price_entry b.db.next_id store user source r s.selling_price new,
      rw ((==_iff r.stock_item_id r.stock_item_id).1 refl) refl,
      record { of_item = refl; old = at.at_price; set_to = refl; reason = refl },
    );
  }
    where
      away :
          (j : ℕ) (x : StockItem)
          → j ≢ r.stock_item_id
          → (x.id == r.stock_item_id) ≡ true
          → (x.id == j) ≡ false
      away j x h fits = ground arith

module _ {W : Type 0} ⦃f : Floats W⦄ (columns : Columns W) where
  still_valid_lem :
      (store : ℕ) (r : PricingRecommendation W) (s : StockItem) (b : PriceBook W)
      → Ensures
          (λ u.
            (holds (λ c. not (columns.equals s.cost_price c)) r.recorded_cost ≡ false)
            × (f.lt (number_of r.recommended_price) (current_floor store s b) ≡ false))
          (assert_recommendation_still_valid columns store r s b)
  unfolding assert_recommendation_still_valid
  still_valid_lem store r s b = Ensures-bind λ u eu.
      Ensures-of _
        λ v ev. (false_of_not _ (ensure-eq-ok _ _ eu), false_of_not _ (ensure-eq-ok _ _ ev))

  -- An accepted recommendation is decided on at its recommended price. The item is in the store, its
  -- recorded cost, if there is one, is its cost now, and the price is not below the floor that the
  -- store's margin asks for now.
  pub accept-IsPriced :
      (now store user id : ℕ) (applied : Bool) (seen b : PriceBook W)
      → Ensures
          (λ x.
            (r : PricingRecommendation W) × (s : StockItem) × IsPriced store user now id accepted
              r.recommended_price applied r b x.1
            × IsAtPrice store r.stock_item_id r.current_price b s
            × (holds (λ c. not (columns.equals s.cost_price c)) r.recorded_cost ≡ false)
            × (f.lt (number_of r.recommended_price) (current_floor store s b) ≡ false))
          (accept_recommendation columns now store user id applied seen b)
  unfolding accept_recommendation
  accept-IsPriced now store user id applied seen b = Ensures-bind λ item _.
      Ensures-call (get_pending-IsOpen now store id item b) λ r is_open.
        Ensures-call (not_stale-IsAtPrice store r.stock_item_id r.current_price b) λ s at.
          Ensures-call (still_valid_lem store r s b) λ u valid. returns (
            r,
            s,
            priced store user now id accepted _ _ applied r s r.recommended_price b is_open at,
            at,
            valid.0,
            valid.1,
          )

  -- A modified recommendation is decided on at the owner's price, which is not below the floor that the
  -- store's margin asks for now.
  pub modify-IsPriced :
      (now store user id : ℕ) (custom_price : W) (applied : Bool) (seen b : PriceBook W)
      → Ensures
          (λ x.
            (r : PricingRecommendation W) × (s : StockItem) × IsPriced store user now id modified
              (columns.to_column custom_price)
              applied
              r
              b
              x.1
            × IsAtPrice store r.stock_item_id r.current_price b s
            × (f.lt custom_price (current_floor store s b) ≡ false))
          (modify_recommendation columns now store user id custom_price applied seen b)
  unfolding modify_recommendation
  modify-IsPriced now store user id custom_price applied seen b = Ensures-bind λ item _.
      Ensures-call (get_pending-IsOpen now store id item b) λ r is_open.
        Ensures-call (not_stale-IsAtPrice store r.stock_item_id r.current_price b) λ s at.
          Ensures-bind λ u eu. returns (
            r,
            s,
            priced store user now id modified _ _ applied r s (columns.to_column custom_price) b
                is_open at,
            at,
            false_of_not _ (ensure-eq-ok _ _ eu),
          )
