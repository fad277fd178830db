-- ===== src/Pricing/Steps.antt =====
-- The operations on prices keep the tables in order: reject, accept and modify, and the syncing of an
-- evaluation.
use stock_pilot_be.Prelude.{
  ℕ, ◌≤◌, ◌≡◌, refl, Bool, true, false, ◌&&◌, Option, some, List, [], ◌∷◌, ◌==◌, inl, inr, arith,
  contains, if◌then◌else◌, Option-cases,
}
use stock_pilot_be.Prelude.Int.{ℤ}
use stock_pilot_be.Prelude.Rows.{find_first, update_first, find_first_fits}
use stock_pilot_be.Prelude.Result.{Ensures, Ensures-bind, Ensures-call, returns}
use stock_pilot_be.Schema.{StockItem}
use stock_pilot_be.Audit.{audit}
use stock_pilot_be.Floats.{Floats}
use stock_pilot_be.PricingEvaluator.Input.{PricingEvaluationInput, PricingEvaluationResult}
use stock_pilot_be.Pricing.{
  PricingRecommendation, PriceBook, Columns, RecommendationStatus, accepted, rejected, modified,
  is_undecided, has_id, is_pending_of, decide, write_decision, log_decision, apply_price,
  expire_pending_recommendations,
}
use stock_pilot_be.Pricing.Decisions.{
  reject_recommendation, accept_recommendation, modify_recommendation,
}
use stock_pilot_be.Pricing.Recommend.{
  upsert_pending_recommendation, sync_recommendation_in_transaction, write_evaluation,
  evaluate_pricing_recommendation,
}
use stock_pilot_be.Pricing.Rows.{find_by_id, fresh_id, all_kept, AllRewritten-IsFresh}
use stock_pilot_be.Pricing.Book.{
  IsBook, Follows, IsTraced, Follows-decision, Follows-update, decided-insert, apply_price-IsTraced,
}
use Prim.Native.String.{String}
use stock_pilot_be.Pricing.Open.{IsOpen, IsAtPrice, get_pending-IsOpen, not_stale-IsAtPrice}

module _ {W : Type 0} where
  -- The decision on an open row, with whatever is then logged.
  decided-Follows :
      (store user now id : ℕ) (status : RecommendationStatus) (price : Option ℤ) (action : String)
      (r : PricingRecommendation W) (b b' : PriceBook W)
      → IsBook b
      → IsOpen now store id b r
      → is_undecided status ≡ false
      → b.db.next_id ≤ b'.db.next_id
      → b'.recommendations
        ≡ update_first (has_id id) (decide status price user now) b.recommendations
      → IsTraced b'
      → Follows b b'
  decided-Follows store user now id status price action r b b' book open_row closed later same
        traced =
      Follows-decision book later id (decide status price user now) r (λ x. refl) open_row.found
        open_row.open_status
        (record {
          same_id = refl;
          same_store = refl;
          same_item = refl;
          was_pending = λ h. absurd (contrary _ h closed);
        })
        same traced
    where
      contrary : (b : Bool) → b ≡ true → b ≡ false → ⊥
      contrary b h k = cc

  pub reject-Follows :
      (now store user id : ℕ) (seen b : PriceBook W)
      → IsBook b
      → Ensures (λ r. Follows b r.1) (reject_recommendation now store user id seen b)
  unfolding reject_recommendation audit
  reject-Follows now store user id seen b book = Ensures-bind λ item _.
      Ensures-call (get_pending-IsOpen now store id item b) λ r is_open. returns (
        decided-Follows store user now id rejected r.final_user_selected_price "" r b _ book is_open
          refl (omega arith) refl book.traced)

  -- A decision that also sets the price, or not.
  applied-Follows :
      (store user now id : ℕ) (status : RecommendationStatus) (source action : String)
      (apply_to_stock_item : Bool) (r : PricingRecommendation W) (s : StockItem) (new : ℤ)
      (b : PriceBook W)
      → IsBook b
      → IsOpen now store id b r
      → IsAtPrice store r.stock_item_id r.current_price b s
      → is_undecided status ≡ false
      → let b1 = write_decision id (decide status (some new) user now) b in
        Follows b (
          log_decision store user action r (
            if apply_to_stock_item
            then apply_price store user source r s.selling_price new b1
            else b1))
  unfolding audit apply_price
  applied-Follows store user now id status source action true r s new b book is_open at closed =
      decided-Follows store user now id status (some new) action r b _ book is_open closed
        (omega arith) refl
        (apply_price-IsTraced store user source r s.selling_price new
          (write_decision id (decide status (some new) user now) b) s at.found book.traced)
  applied-Follows store user now id status source action false r s new b book is_open at closed =
      decided-Follows store user now id status (some new) action r b _ book is_open closed
        (omega arith) refl book.traced

  -- The pending rows of some items expire, and the prices keep their trace.
  pub expired-Follows :
      (store : ℕ) (items : List ℕ) (b b' : PriceBook W)
      → IsBook b
      → b.db.next_id ≤ b'.db.next_id
      → b'.recommendations ≡ (expire_pending_recommendations store items b).recommendations
      → IsTraced b'
      → Follows b b'
  unfolding expire_pending_recommendations
  expired-Follows store items b b' book later same traced =
      Follows-update book later _ _
        (λ x. record { same_id = refl; same_store = refl; same_item = refl; was_pending = λ h. cc })
        (λ x e. closed (x.store_id == store && contains x.stock_item_id items) _ e) same traced
    where
      closed : (a c : Bool) → c ≡ false → (a && c) ≡ false
      closed true c e = e
      closed false c e = refl

  pub expire-Follows :
      (store : ℕ) (items : List ℕ) (b : PriceBook W)
      → IsBook b
      → Follows b (expire_pending_recommendations store items b)
  unfolding expire_pending_recommendations
  expire-Follows store items b book =
      expired-Follows store items b _ book (omega arith) refl book.traced

  Follows-if :
      (c : Bool) {b x y : PriceBook W} → Follows b x → Follows b y → Follows b (if c then x else y)
  Follows-if true p q = p
  Follows-if false p q = q

module _ {W : Type 0} ⦃f : Floats W⦄ (columns : Columns W) where
  pub accept-Follows :
      (now store user id : ℕ) (apply_to_stock_item : Bool) (seen b : PriceBook W)
      → IsBook b
      → Ensures
          (λ r. Follows b r.1)
          (accept_recommendation columns now store user id apply_to_stock_item seen b)
  unfolding accept_recommendation
  accept-Follows now store user id apply_to_stock_item seen b book = Ensures-bind λ item _.
      Ensures-call (get_pending-IsOpen now store id item b) λ r is_open.
        Ensures-call (not_stale-IsAtPrice store r.stock_item_id r.current_price b) λ s at.
          Ensures-bind λ u _. returns (
            applied-Follows store user now id accepted _ _ apply_to_stock_item r s
              r.recommended_price b book is_open at refl)

  pub modify-Follows :
      (now store user id : ℕ) (custom_price : W) (apply_to_stock_item : Bool) (seen b : PriceBook W)
      → IsBook b
      → Ensures
          (λ r. Follows b r.1)
          (modify_recommendation columns now store user id custom_price apply_to_stock_item seen b)
  unfolding modify_recommendation
  modify-Follows now store user id custom_price apply_to_stock_item seen b book =
      Ensures-bind λ item _. Ensures-call (get_pending-IsOpen now store id item b) λ r is_open.
        Ensures-call (not_stale-IsAtPrice store r.stock_item_id r.current_price b) λ s at.
          Ensures-bind λ u _. returns (
            applied-Follows store user now id modified _ _ apply_to_stock_item r s
              (columns.to_column custom_price) b book is_open at refl)

  upsert-Follows :
      (now store item : ℕ) (input : PricingEvaluationInput W) (e : PricingEvaluationResult W)
      (b : PriceBook W)
      → IsBook b
      → Follows b (upsert_pending_recommendation columns now store item input e b)
  unfolding upsert_pending_recommendation
  upsert-Follows now store item input e b book =
      elim (Option-cases (find_first (is_pending_of store item) b.recommendations)) [
        | inr (old, found) ↦
            rw (found, upsert_pending_recommendation)
              (Follows-decision book (omega arith) old.id (write_evaluation columns now input e) old
                (λ x. refl) (find_by_id (is_pending_of store item) _ old book.unique found)
                (pending_of old (find_first_fits (is_pending_of store item) _ old found))
                (record {
                  same_id = refl;
                  same_store = refl;
                  same_item = refl;
                  was_pending = λ h. h;
                })
                refl book.traced)
        | inl missing ↦
            rw (missing, upsert_pending_recommendation)
              (record {
                book = record {
                  fresh = (
                    omega arith,
                    AllRewritten-IsFresh _ _ _ _ (omega arith) (all_kept b.recommendations)
                        book.fresh,
                  );
                  unique = (fresh_id _ _ book.fresh, book.unique);
                  single = (λ _. missing, book.single);
                  traced = book.traced;
                };
                decided = decided-insert b.db.next_id b.recommendations _ book.fresh refl;
              })
      ]
    where
      pending_of :
          (r : PricingRecommendation W)
          → is_pending_of store item r ≡ true
          → is_undecided r.status ≡ true
      pending_of r h = ground arith

  pub sync-Follows :
      (now store item : ℕ) (input : PricingEvaluationInput W) (e : PricingEvaluationResult W)
      (b : PriceBook W)
      → IsBook b
      → Follows b (sync_recommendation_in_transaction columns now store item input e b)
  unfolding sync_recommendation_in_transaction
  sync-Follows now store item input e b book =
      Follows-if e.should_generate_recommendation (upsert-Follows now store item input e b book)
        (expire-Follows store (item ∷ []) b book)

  pub evaluate-Follows :
      (now store item : ℕ) (input : PricingEvaluationInput W) (b : PriceBook W)
      → IsBook b
      → Ensures
          (λ r. Follows b r.1)
          (evaluate_pricing_recommendation columns now store item input b)
  unfolding evaluate_pricing_recommendation
  evaluate-Follows now store item input b book =
      Ensures-bind λ s _. returns (sync-Follows now store item input _ b book)
