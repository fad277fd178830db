-- ===== src/RiskEvaluator/Scores.antt =====
-- The scores and the levels of the risk evaluator.
use stock_pilot_be.Prelude.{
  ℕ, ◌≤◌, ◌≡◌, refl, Bool, true, false, inl, inr, arith, Bool-cases, if◌then◌else◌,
}
use stock_pilot_be.Prelude.Int.{pos}
use stock_pilot_be.Floats.{
  Floats, IsOrdered, IsNumber, ◌≼◌, ◌≺◌, whole, math_max_bounds, math_min_bounds, math_min_glb,
  math_min_numbers, math_max_lub, math_max,
}
use stock_pilot_be.RiskEvaluator.Grades.{
  Severity, low, medium, high, critical, Scored, Thresholds, severity_of, clamp_score,
  StockoutInput, calculate_stockout_risk, stockout_raw, least_stockout, weighted_stockout,
  shortage_ratio,
}
use stock_pilot_be.RiskEvaluator.Overstock.{
  OverstockInput, units_above, calculate_overstock_risk, overstock_score, graded_overstock,
}

abbrev pub rank : Severity → ℕ
rank low = 0
rank medium = 1
rank high = 2
rank critical = 3

-- A score that is a number lies between 0 and 100, and its level is the one that it reaches.
pub record IsScored {W : Type 0} ⦃f : Floats W⦄ (t : Thresholds W) (r : Scored W) : Type 0 where
  pub bounded : IsNumber r.score → (whole 0 ≼ r.score) × (r.score ≼ whole 100)
  pub graded : r.severity ≡ severity_of t r.score

module _ {W : Type 0} ⦃f : Floats W⦄ (order : IsOrdered W) (t : Thresholds W)
    (hundred : f.le (whole 0) (whole 100) ≡ true) (low_bound : t.low_threshold ≼ whole 100)
    (high_bound : t.high_threshold ≼ whole 100)
    (critical_bound : t.critical_threshold ≼ whole 100) where
  clamp_score-bounds :
      (raw : W)
      → IsNumber (clamp_score raw)
      → (whole 0 ≼ clamp_score raw)
        × (clamp_score raw ≼ whole 100)
        × ((c : W) → c ≼ whole 100 → c ≼ raw → c ≼ clamp_score raw)
  clamp_score-bounds raw n =
      let numbers = math_min_numbers order _ _ n in
      let bounds = math_max_bounds order _ _ numbers.1 in
      (
        math_min_glb order _ _ _ hundred bounds.2,
        (math_min_bounds order _ _ numbers.0 numbers.1).0,
        λ c c100 craw. math_min_glb order _ _ c c100 (order.le_trans _ _ _ craw bounds.3),
      )

  -- The scores of running out of stock lie between 0 and 100, and their levels go by the thresholds,
  -- which are 100 at most.
  pub calculate_stockout_risk-IsScored :
      (i : StockoutInput W) → IsScored t (calculate_stockout_risk t i)
  unfolding calculate_stockout_risk severity_of
  calculate_stockout_risk-IsScored i = elim (Bool-cases (f.le i.available_stock (whole 0))) [
    | inl e ↦ rw e (record { bounded = λ n. (hundred, n); graded = rw critical_bound refl })
    | inr e ↦ rw e (record {
      bounded = λ n. let b = clamp_score-bounds (stockout_raw t i) n in (b.0, b.1);
      graded = refl;
    })
  ]

  least_stockout-le : (shortage : W) → least_stockout t shortage ≼ whole 100
  unfolding least_stockout
  least_stockout-le s = elim (Bool-cases (f.le (f.ratio (pos 7) 10) s)) [
    | inl e ↦ rw e critical_bound
    | inr e ↦ rw e (elim (Bool-cases (f.le (f.ratio (pos 3) 10) s)) [
      | inl d ↦ rw d high_bound
      | inr d ↦ rw d low_bound
    ])
  ]

  raw_floor :
      (i : StockoutInput W)
      → i.available_stock ≼ i.reorder_point
      → whole 0 ≺ i.reorder_point
      → IsNumber (stockout_raw t i)
      → least_stockout t (shortage_ratio i) ≼ stockout_raw t i
  unfolding stockout_raw
  raw_floor i short positive n =
      let same : stockout_raw t i
          ≡ math_max (weighted_stockout i) (least_stockout t (shortage_ratio i)) =
        rw (short, positive) refl in
      rw same (math_max_bounds order _ _ (rw same at n)).3

  score_floor :
      (i : StockoutInput W)
      → i.available_stock ≼ i.reorder_point
      → whole 0 ≺ i.reorder_point
      → IsNumber (calculate_stockout_risk t i).score
      → least_stockout t (shortage_ratio i) ≼ (calculate_stockout_risk t i).score
  unfolding calculate_stockout_risk
  score_floor i short positive n = elim (Bool-cases (f.le i.available_stock (whole 0))) [
    | inl e ↦ rw e (least_stockout-le _)
    | inr e ↦
        let number : IsNumber (clamp_score (stockout_raw t i)) = rw e at n in
        let bounds = math_max_bounds order _ _ (math_min_numbers order _ _ number).1 in
        rw e (
          (clamp_score-bounds _ number).2 _ (least_stockout-le _)
            (raw_floor i short positive bounds.1))
  ]

  -- What a shortage asks of the score and of its level: at least 70 hundredths, at least 30, or any.
  pub data Demands (shortage : W) : W → ℕ → Type 0 where
    any : Demands shortage t.low_threshold 1
    some_short : f.ratio (pos 3) 10 ≼ shortage → Demands shortage t.high_threshold 2
    very_short : f.ratio (pos 7) 10 ≼ shortage → Demands shortage t.critical_threshold 3

  module _ (low_high : t.low_threshold ≼ t.high_threshold)
      (high_critical : t.high_threshold ≼ t.critical_threshold) where
    least_stockout-demanded :
        (shortage threshold : W) (level : ℕ)
        → Demands shortage threshold level
        → threshold ≼ least_stockout t shortage
    unfolding least_stockout
    least_stockout-demanded s threshold level d = elim (Bool-cases (f.le (f.ratio (pos 7) 10) s)) [
      | inl e ↦ rw e (below_critical threshold level d)
      | inr e ↦ rw e (elim (Bool-cases (f.le (f.ratio (pos 3) 10) s)) [
        | inl k ↦ rw k (below_high threshold level d e)
        | inr k ↦ rw k (below_low threshold level d e k)
      ])
    ]
      where
        clash : (c : Bool) → c ≡ true → c ≡ false → ⊥
        clash c h k = cc

        below_critical :
            (threshold : W) (level : ℕ)
            → Demands s threshold level
            → threshold ≼ t.critical_threshold
        below_critical threshold level any = order.le_trans _ _ _ low_high high_critical
        below_critical threshold level (some_short h) = high_critical
        below_critical threshold level (very_short h) = (order.le_number _ _ high_critical).1

        below_high :
            (threshold : W) (level : ℕ)
            → Demands s threshold level
            → f.le (f.ratio (pos 7) 10) s ≡ false
            → threshold ≼ t.high_threshold
        below_high threshold level any e = low_high
        below_high threshold level (some_short h) e = (order.le_number _ _ low_high).1
        below_high threshold level (very_short h) e = absurd (clash _ h e)

        below_low :
            (threshold : W) (level : ℕ)
            → Demands s threshold level
            → f.le (f.ratio (pos 7) 10) s ≡ false
            → f.le (f.ratio (pos 3) 10) s ≡ false
            → threshold ≼ t.low_threshold
        below_low threshold level any e k = (order.le_number _ _ low_high).0
        below_low threshold level (some_short h) e k = absurd (clash _ h k)
        below_low threshold level (very_short h) e k = absurd (clash _ h e)

    severity_of-demanded :
        (shortage threshold score : W) (level : ℕ)
        → Demands shortage threshold level
        → threshold ≼ score
        → level ≤ rank (severity_of t score)
    unfolding severity_of
    severity_of-demanded shortage threshold score level any h =
        elim (Bool-cases (f.le t.critical_threshold score)) [
          | inl c ↦ rw c (omega arith)
          | inr c ↦ elim (Bool-cases (f.le t.high_threshold score)) [
            | inl d ↦ rw (c, d) (omega arith)
            | inr d ↦ rw (c, d, h) (omega arith)
          ]
        ]
    severity_of-demanded shortage threshold score level (some_short k) h =
        elim (Bool-cases (f.le t.critical_threshold score)) [
          | inl c ↦ rw c (omega arith)
          | inr c ↦ rw (c, h) (omega arith)
        ]
    severity_of-demanded shortage threshold score level (very_short k) h = rw h (omega arith)

    -- Of stock at or below a positive reorder point, a score that is a number is at least the low
    -- threshold and its level at least medium; where at least 30 hundredths of the reorder point are
    -- missing (of one unit, if that is more), the high threshold and high; and where 70 are, the critical
    -- threshold and critical. The conditions on the thresholds: they are 100 at most, and in order.
    pub calculate_stockout_risk-floor :
        (i : StockoutInput W)
        → i.available_stock ≼ i.reorder_point
        → whole 0 ≺ i.reorder_point
        → IsNumber (calculate_stockout_risk t i).score
        → (threshold : W) (level : ℕ) → Demands (shortage_ratio i) threshold level
        → (threshold ≼ (calculate_stockout_risk t i).score)
          × (level ≤ rank (calculate_stockout_risk t i).severity)
    calculate_stockout_risk-floor i short positive n threshold level demand =
        let reached =
          order.le_trans _ _ _ (least_stockout-demanded _ threshold level demand)
            (score_floor i short positive n) in
        (
          reached,
          rw (calculate_stockout_risk-IsScored i).graded
              (severity_of-demanded _ threshold _ level demand reached),
        )

  graded_overstock-le :
      (i : OverstockInput W) → IsNumber (graded_overstock i) → graded_overstock i ≼ whole 100
  unfolding graded_overstock
  graded_overstock-le i n =
      let numbers = math_min_numbers order _ _ n in
      (math_min_bounds order _ _ numbers.0 numbers.1).0

  overstock_score-le :
      (i : OverstockInput W) → IsNumber (overstock_score i t) → overstock_score i t ≼ whole 100
  unfolding overstock_score
  overstock_score-le i n = elim (Bool-cases (f.lt (whole 0) (units_above i))) [
    | inr e ↦ rw e (graded_overstock-le i (rw e at n))
    | inl e ↦
        let n' = rw e at n in
        let g = graded_overstock-le i (math_max_bounds order _ _ n').0 in
        rw e (math_max_lub order _ _ _ g (least_bound _))
  ]
    where
      least_bound : (b : Bool) → (if b then t.high_threshold else t.low_threshold) ≼ whole 100
      least_bound true = high_bound
      least_bound false = low_bound

  -- The scores of too much stock are 100 at most, and their levels go by the thresholds, which are
  -- 100 at most.
  pub calculate_overstock_risk-IsScored :
      (i : OverstockInput W)
      → (IsNumber (overstock_score i t) → overstock_score i t ≼ whole 100)
        × ((calculate_overstock_risk i t).0.severity ≡ severity_of t (overstock_score i t))
  unfolding calculate_overstock_risk
  calculate_overstock_risk-IsScored i = (overstock_score-le i, refl)
