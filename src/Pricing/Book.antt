-- ===== src/Pricing/Book.antt =====
-- What holds of the tables of prices, and what a write of them keeps.
use mathlib.Core.Option
use stock_pilot_be.Prelude.{
  ℕ, ◌≤◌, ◌≡◌, refl, sym, ap, subst, ◌∙◌, Bool, true, false, Option, none, some, List, ◌∷◌, ◌==◌,
  ==_iff, inl, inr, arith, Bool-cases, found_once, if◌then◌else◌,
}
use stock_pilot_be.Prelude.Int.{ℤ}
use stock_pilot_be.Prelude.Rows.{
  find_first, update_first, update_all, find_first-update_ne, find_first-update_self,
  find_first-update_all, some_injective,
}
use stock_pilot_be.Schema.{StockItem}
use stock_pilot_be.Pricing.{
  PricingRecommendation, PriceHistory, PriceBook, is_undecided, has_id, of_store, apply_price,
}
use stock_pilot_be.Pricing.Rows.{
  Rewrites, AllRewritten, IsUnique, IsSingle, IsFresh, fresh_id, AllRewritten-IsUnique,
  AllRewritten-IsSingle, AllRewritten-IsFresh, update_first-AllRewritten, update_all-AllRewritten,
}
use Prim.Native.String.{String}

abbrev pub price_in : Option StockItem → Option ℤ
price_in none = none
price_in (some s) = some s.selling_price

abbrev pub is_of_item : ℕ → PriceHistory → Bool
is_of_item j h = h.stock_item_id == j

pub of_store_found :
    {A : Type 0} (store_of : A → ℕ) (store : ℕ) (o : Option A) {a : A}
    → of_store store_of store o ≡ some a
    → (o ≡ some a) × (store_of a ≡ store)
of_store_found store_of store none h = cc
of_store_found store_of store (some x) h = elim (Bool-cases (store_of x == store)) [
  | inl e ↦
      let same : some x ≡ some _ = rw e at h in
      (same, ap store_of (sym (some_injective same)) ∙ (==_iff _ _).0 e)
  | inr e ↦ absurd (clash (rw e at h))
]
  where
    clash : {A : Type 0} {a : A} → none ≡ some a → ⊥
    clash k = cc

contrary : (b : Bool) → b ≡ true → b ≡ false → ⊥
contrary b h k = cc

module _ {W : Type 0} where
  abbrev pub selling_price_of : ℕ → PriceBook W → Option ℤ
  selling_price_of j b = price_in (find_first (λ s. s.id == j) b.db.stock_items)

  -- The newest row of an item's history, if there is one, says its price.
  abbrev pub IsTraced : PriceBook W → Type 0
  IsTraced b =
      (j : ℕ) (h : PriceHistory)
      → find_first (is_of_item j) b.histories ≡ some h
      → selling_price_of j b ≡ some h.new_price

  -- The ids are unique and below the counter, an item of a store has one pending recommendation at
  -- most, and the history says the prices.
  pub record IsBook (b : PriceBook W) : Type 0 where
    pub fresh : IsFresh b.db.next_id b.recommendations
    pub unique : IsUnique b.recommendations
    pub single : IsSingle b.recommendations
    pub traced : IsTraced b

  -- A recommendation that was decided on, or has expired, stays as it is.
  abbrev pub KeepsDecided : List (PricingRecommendation W) → List (PricingRecommendation W) → Type 0
  KeepsDecided rows rows' =
      (id : ℕ) (r : PricingRecommendation W)
      → find_first (has_id id) rows ≡ some r
      → is_undecided r.status ≡ false
      → find_first (has_id id) rows' ≡ some r

  pub record Follows (b b' : PriceBook W) : Type 0 where
    pub book : IsBook b'
    pub decided : KeepsDecided b.recommendations b'.recommendations

  decided-update_first :
      (id : ℕ) (w : PricingRecommendation W → PricingRecommendation W)
      (rows : List (PricingRecommendation W)) (r : PricingRecommendation W)
      → ((x : PricingRecommendation W) → (w x).id ≡ x.id)
      → find_first (has_id id) rows ≡ some r
      → is_undecided r.status ≡ true
      → KeepsDecided rows (update_first (has_id id) w rows)
  decided-update_first id w rows r keeps found pend j s fs dec = elim (Bool-cases (id == j)) [
    | inl e ↦
        let same : s ≡ r =
          found_once fs (ap (λ i. find_first (has_id i) rows) (sym ((==_iff id j).0 e)) ∙ found) in
        absurd (contrary (is_undecided s.status) (rw same pend) dec)
    | inr e ↦
        find_first-update_ne (has_id id) (has_id j) w (λ x. ap (λ i. i == j) (keeps x))
          (λ x fits. away x fits e) rows
        ∙ fs
  ]
    where
      away :
          (x : PricingRecommendation W)
          → has_id id x ≡ true
          → (id == j) ≡ false
          → has_id j x ≡ false
      away x fits e = ground arith

  decided-update_all :
      (p : PricingRecommendation W → Bool) (w : PricingRecommendation W → PricingRecommendation W)
      (rows : List (PricingRecommendation W))
      → ((x : PricingRecommendation W) → (w x).id ≡ x.id)
      → ((x : PricingRecommendation W) → is_undecided x.status ≡ false → p x ≡ false)
      → KeepsDecided rows (update_all p w rows)
  decided-update_all p w rows keeps only j s fs dec =
      find_first-update_all p (has_id j) w (λ x. ap (λ i. i == j) (keeps x)) rows
      ∙ ap (Option.map (λ x. if p x then w x else x)) fs
      ∙ rw (only s dec) refl

  module _ {b b' : PriceBook W} (ok_book : IsBook b) (later : b.db.next_id ≤ b'.db.next_id) where
    pub AllRewritten-Follows :
        AllRewritten b.recommendations b'.recommendations
        → KeepsDecided b.recommendations b'.recommendations
        → IsTraced b'
        → Follows b b'
    AllRewritten-Follows all dec traced = record {
      book = record {
        fresh = AllRewritten-IsFresh _ _ _ _ later all ok_book.fresh;
        unique = AllRewritten-IsUnique _ _ all ok_book.unique;
        single = AllRewritten-IsSingle _ _ all ok_book.single;
        traced = traced;
      };
      decided = dec;
    }

    -- The row of an id, which is pending, is rewritten.
    pub Follows-decision :
        (id : ℕ) (w : PricingRecommendation W → PricingRecommendation W)
        (r : PricingRecommendation W)
        → ((x : PricingRecommendation W) → (w x).id ≡ x.id)
        → find_first (has_id id) b.recommendations ≡ some r
        → is_undecided r.status ≡ true
        → Rewrites r (w r)
        → b'.recommendations ≡ update_first (has_id id) w b.recommendations
        → IsTraced b'
        → Follows b b'
    Follows-decision id w r keeps found pend rewrites same traced =
        AllRewritten-Follows
          (rw same (
            update_first-AllRewritten (has_id id) w b.recommendations
              λ x fx. rw (found_once fx found) rewrites))
          (rw same (decided-update_first id w b.recommendations r keeps found pend)) traced

    -- Pending rows are rewritten.
    pub Follows-update :
        (p : PricingRecommendation W → Bool) (w : PricingRecommendation W → PricingRecommendation W)
        → ((x : PricingRecommendation W) → Rewrites x (w x))
        → ((x : PricingRecommendation W) → is_undecided x.status ≡ false → p x ≡ false)
        → b'.recommendations ≡ update_all p w b.recommendations
        → IsTraced b'
        → Follows b b'
    Follows-update p w rewrites only same traced =
        AllRewritten-Follows
          (rw same (update_all-AllRewritten p w (λ x _. rewrites x) b.recommendations))
          (rw same (decided-update_all p w b.recommendations (λ x. (rewrites x).same_id) only))
          traced

  -- A new row stands before the others.
  pub decided-insert :
      (next : ℕ) (rows : List (PricingRecommendation W)) (new : PricingRecommendation W)
      → IsFresh next rows
      → new.id ≡ next
      → KeepsDecided rows (new ∷ rows)
  decided-insert next rows new fresh e j s fs dec = elim (Bool-cases (has_id j new)) [
    | inr k ↦ rw k fs
    | inl k ↦ absurd (
        clash (
          sym fs
          ∙ ap (λ i. find_first (has_id i) rows) (sym ((==_iff _ _).0 k) ∙ e)
          ∙ fresh_id next rows fresh))
  ]
    where
      clash : some s ≡ none → ⊥
      clash k = cc

  -- The price of the item becomes the new one, and the history's newest row says so.
  pub apply_price-IsTraced :
      (store user : ℕ) (source : String) (r : PricingRecommendation W) (old new : ℤ)
      (b : PriceBook W) (s : StockItem)
      → find_first (λ x. x.id == r.stock_item_id) b.db.stock_items ≡ some s
      → IsTraced b
      → IsTraced (apply_price store user source r old new b)
  unfolding apply_price
  apply_price-IsTraced store user source r old new b s found traced j h newest =
      elim (Bool-cases (r.stock_item_id == j)) [
        | inl e ↦
            subst
              (λ i.
                price_in (
                  find_first (λ x. x.id == i)
                    (update_first (λ x. x.id == r.stock_item_id)
                      (λ x. record x { selling_price = new }) b.db.stock_items))
                ≡ some h.new_price)
              ((==_iff _ _).0 e)
              (ap price_in (
                  find_first-update_self (λ x. x.id == r.stock_item_id)
                    (λ x. record x { selling_price = new }) (λ x. refl) b.db.stock_items
                  ∙ ap (Option.map {A = StockItem} (λ x. record x { selling_price = new })) found)
                ∙ ap (λ k. some k.new_price) (some_injective (rw e at newest)))
        | inr e ↦
            ap price_in (
              find_first-update_ne (λ x. x.id == r.stock_item_id) (λ x. x.id == j)
                (λ x. record x { selling_price = new }) (λ x. refl) (λ x fits. away x fits e)
                b.db.stock_items)
            ∙ traced j h (rw e at newest)
      ]
    where
      away :
          (x : StockItem)
          → (x.id == r.stock_item_id) ≡ true
          → (r.stock_item_id == j) ≡ false
          → (x.id == j) ≡ false
      away x fits e = ground arith
