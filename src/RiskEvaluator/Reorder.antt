-- ===== src/RiskEvaluator/Reorder.antt =====
-- The quantities that the risk evaluator asks for: to order, to keep in reserve, and lying dead.
use stock_pilot_be.Prelude.{
  ℕ, ◌≤◌, ◌≡◌, refl, Bool, true, false, ◌&&◌, Option, none, some, inl, inr, arith, Bool-cases,
}
use stock_pilot_be.Prelude.Int.{pos}
use stock_pilot_be.Floats.{
  Floats, IsOrdered, IsNumber, ◌≼◌, ◌≺◌, whole, math_max, math_min, math_max_bounds,
  math_max-IsNumber, math_min_bounds, math_min_glb, math_min_numbers,
}
use stock_pilot_be.RiskEvaluator.Normal.{
  normal_tail, normal_middle, bounded_level, inverse_standard_normal, z_score_for_service_level,
}
use stock_pilot_be.RiskEvaluator.Supply.{
  ReorderInput, calculate_reorder_quantity, refill, reorder_cap, up_to_target, SafetyStockResult,
  safety_stock_by, calculate_safety_stock,
}
use stock_pilot_be.RiskEvaluator.Shelf.{calm, dead, evaluate_slow_and_dead_stock}

module _ {W : Type 0} ⦃f : Floats W⦄ (order : IsOrdered W) where
  module _ (i : ReorderInput W) (limited : f.lt (whole 0) i.max_stock_level ≡ true)
      (space : f.le
          (f.sub i.max_stock_level i.available_stock)
          (f.sub i.max_stock_level i.available_stock)
        ≡ true) where
    abbrev room : W
    room = math_max (whole 0) (f.sub i.max_stock_level i.available_stock)

    IsWithin : W → Type 0
    IsWithin q = IsNumber q → (whole 0 ≼ q) × (q ≼ room)

    nothing-IsWithin : IsWithin (whole 0)
    unfolding IsWithin
    nothing-IsWithin n = (n, (math_max_bounds order _ _ (math_max-IsNumber order _ _ n space)).2)

    refill-IsWithin : IsWithin (refill i)
    unfolding IsWithin refill
    refill-IsWithin n =
        let n' : IsNumber room = rw limited at n in
        rw limited ((math_max_bounds order _ _ n').2, n')

    capped-IsWithin : IsWithin (math_min room (up_to_target i))
    unfolding IsWithin up_to_target
    capped-IsWithin n =
        let numbers = math_min_numbers order _ _ n in
        (
          math_min_glb order _ _ _ (math_max_bounds order _ _ numbers.0).2
              (math_max_bounds order _ _ numbers.1).2,
          (math_min_bounds order _ _ numbers.0 numbers.1).0,
        )

    reorder-IsWithin : IsWithin (calculate_reorder_quantity i)
    unfolding calculate_reorder_quantity reorder_cap up_to_target IsWithin refill
    reorder-IsWithin = elim (Bool-cases (f.lt i.reorder_point i.available_stock)) [
      | inl e ↦ rw e nothing-IsWithin
      | inr e ↦ elim (Bool-cases i.has_sufficient_history) [
        | inl h ↦ rw (e, h, limited) capped-IsWithin
        | inr h ↦ rw (e, h) refill-IsWithin
      ]
    ]

    -- Of an item with a positive maximum, of which the room left is a number: a quantity to order that
    -- is a number is not negative, and fits in the room up to the maximum, with history or without.
    pub calculate_reorder_quantity-bounds :
        IsNumber (calculate_reorder_quantity i)
        → (whole 0 ≼ calculate_reorder_quantity i)
          × (calculate_reorder_quantity i
              ≼ math_max (whole 0) (f.sub i.max_stock_level i.available_stock))
    unfolding IsWithin
    calculate_reorder_quantity-bounds n = reorder-IsWithin n

  module _ (half : f.lt (whole 0) (f.ratio (pos 5) 10) ≡ true)
      (apart : f.le (f.ratio (pos 5) 10) (f.ratio (pos 9_999) 10_000) ≡ true)
      (below_one : f.lt (f.ratio (pos 9_999) 10_000) (whole 1) ≡ true) (level : W)
      (is_number : f.le level level ≡ true) where
    bounded_level-inside : (whole 0 ≺ bounded_level level) × (bounded_level level ≺ whole 1)
    unfolding bounded_level
    bounded_level-inside =
        let n = order.le_number _ _ apart in
        let m = math_max-IsNumber order (f.ratio (pos 5) 10) level n.0 is_number in
        let least = (math_max_bounds order _ _ m).2 in
        (
          order.lt_le_trans _ _ _ half (math_min_glb order _ _ _ apart least),
          order.le_lt_trans _ _ _ (math_min_bounds order _ _ n.1 m).0 below_one,
        )

    inverse_defined : (z : W) × (inverse_standard_normal (bounded_level level) ≡ some z)
    unfolding inverse_standard_normal
    inverse_defined =
        let p = bounded_level level in
        let small = f.ratio (pos 2_425) 100_000 in
        let positive = order.not_le_of_lt _ _ bounded_level-inside.0 in
        let partial = order.not_le_of_lt _ _ bounded_level-inside.1 in
        elim (Bool-cases (f.lt p small)) [
          | inl e ↦ (normal_tail (λ x. x) p, rw (positive, partial, e) refl)
          | inr e ↦ elim (Bool-cases (f.lt (f.sub (whole 1) small) p)) [
            | inl k ↦ (normal_tail f.neg (f.sub (whole 1) p), rw (positive, partial, e, k) refl)
            | inr k ↦ (normal_middle p, rw (positive, partial, e, k) refl)
          ]
        ]

    reserve-le :
        (z std_dev lead avg safety_days : W) (sufficient : Bool)
        → IsNumber (safety_stock_by z std_dev lead avg safety_days sufficient).safety_stock
        → whole 0 ≼ (safety_stock_by z std_dev lead avg safety_days sufficient).safety_stock
    unfolding safety_stock_by
    reserve-le z std_dev lead avg safety_days sufficient =
        elim (Bool-cases (sufficient && f.lt (whole 0) std_dev)) [
          | inl e ↦ rw e (λ n. (math_max_bounds order _ _ n).2)
          | inr e ↦ rw e (λ n. (math_max_bounds order _ _ n).2)
        ]

    -- For every service level that is a number, whatever it is, the safety stock is found and no error
    -- is thrown; and a safety stock that is a number is not negative.
    pub calculate_safety_stock-total :
        (std_dev lead avg safety_days : W) (sufficient : Bool)
        → (r : SafetyStockResult W) × (calculate_safety_stock std_dev lead level avg safety_days
              sufficient
            ≡ some r)
          × (IsNumber r.safety_stock → whole 0 ≼ r.safety_stock)
    unfolding calculate_safety_stock z_score_for_service_level
    calculate_safety_stock-total std_dev lead avg safety_days sufficient =
        let z = f.to_fixed 3 inverse_defined.0 in
        (
          safety_stock_by z std_dev lead avg safety_days sufficient,
          rw (inverse_defined.1, calculate_safety_stock, z_score_for_service_level) refl,
          reserve-le z std_dev lead avg safety_days sufficient,
        )

  -- The levels of dead stock: where the days for slow stock are no more than those for dead stock, what
  -- is dead is slow, stock is calm exactly if it is not slow, and what is critical is dead.
  pub evaluate_slow_and_dead_stock-levels :
      (available cost selling : W) (since : Option ℕ) (slow_days dead_days : ℕ)
      → slow_days ≤ dead_days
      → let r = evaluate_slow_and_dead_stock available since slow_days dead_days cost selling in
        (r.is_dead_stock ≡ true → r.is_slow_moving ≡ true)
        × (r.severity ≡ calm → r.is_slow_moving ≡ false)
        × (r.is_slow_moving ≡ false → r.severity ≡ calm)
        × (r.severity ≡ dead → r.is_dead_stock ≡ true)
  unfolding evaluate_slow_and_dead_stock
  evaluate_slow_and_dead_stock-levels available cost selling none slow_days dead_days h =
      (λ e. cc, λ e. refl, λ e. refl, λ e. cc)
  evaluate_slow_and_dead_stock-levels available cost selling (some d) slow_days dead_days h =
      elim (Bool-cases (f.le available (whole 0))) [
        | inl e ↦ rw e (λ e. cc, λ e. refl, λ e. refl, λ e. cc)
        | inr e ↦ rw e (λ k. ground arith, λ k. ground arith, λ k. ground arith, λ k. ground arith)
      ]
