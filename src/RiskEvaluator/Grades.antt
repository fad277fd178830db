-- ===== src/RiskEvaluator/Grades.antt =====
-- risk-evaluator.ts: the confidence of an analysis, and the risk of running out of stock.
use stock_pilot_be.Prelude.{ℕ, ◌*◌, ◌&&◌, Option, none, some, leb, if◌then◌else◌}
use stock_pilot_be.Prelude.Int.{pos}
use stock_pilot_be.Floats.{Floats, whole, math_max, math_min}
use stock_pilot_be.RiskEvaluator.Normal.{at_least_one}

pub data Severity : Type 0 where
  low medium high critical : Severity

pub record Scored (W : Type 0) : Type 0 where
  pub score : W
  pub severity : Severity

pub record Thresholds (W : Type 0) : Type 0 where
  pub low_threshold : W
  pub high_threshold : W
  pub critical_threshold : W

pub record StockoutInput (W : Type 0) : Type 0 where
  pub available_stock : W
  pub reorder_point : W
  pub days_of_cover : Option W
  pub lead_time_days : W
  pub safety_days : W
  pub trend_ratio : W

module _ {W : Type 0} ⦃f : Floats W⦄ where
  -- The level that a score reaches.
  unfoldable pub severity_of : Thresholds W → W → Severity
  severity_of t score =
      if f.le t.critical_threshold score
      then critical
      else if f.le t.high_threshold score
      then high
      else if f.le t.low_threshold score
      then medium
      else low

  abbrev pub clamp_score : W → W
  clamp_score raw = math_min (whole 100) (math_max (whole 0) raw)

  -- Of the levels LOW, MEDIUM and HIGH.
  unfoldable pub calculate_confidence : W → W → ℕ → Scored W
  calculate_confidence history minimum days_with_sales =
      let coverage =
        math_min (whole 1) (math_max (whole 0) (f.div history (at_least_one minimum))) in
      let earned = if leb 5 days_with_sales then whole 20 else whole (days_with_sales * 4) in
      let score = clamp_score (f.add (f.round (f.mul coverage (whole 80))) earned) in
      record {
        score = score;
        severity =
            if f.le (whole 75) score then high else if f.le (whole 40) score then medium else low;
      }

  unfoldable pub shortage_ratio : StockoutInput W → W
  shortage_ratio i =
      f.div (math_max (whole 0) (f.sub i.reorder_point i.available_stock))
        (math_max i.reorder_point (whole 1))

  -- `0.7` and `0.3` are the shortages from which the score is at least critical, or high.
  unfoldable pub least_stockout : Thresholds W → W → W
  least_stockout t shortage =
      if f.le (f.ratio (pos 7) 10) shortage
      then t.critical_threshold
      else if f.le (f.ratio (pos 3) 10) shortage
      then t.high_threshold
      else t.low_threshold

  unfoldable pub coverage_risk : StockoutInput W → W
  coverage_risk i = elim i.days_of_cover [
    | some d ↦
        math_max (whole 0)
          (f.sub (whole 1) (f.div d (at_least_one (f.add i.lead_time_days i.safety_days))))
    | none ↦ if f.lt (whole 0) (shortage_ratio i) then f.ratio (pos 7) 10 else whole 0
  ]

  unfoldable pub weighted_stockout : StockoutInput W → W
  weighted_stockout i =
      let trend_risk =
        math_min (math_max (f.div (f.sub i.trend_ratio (whole 1)) (whole 1)) (whole 0)) (whole 1) in
      f.round (
        f.mul (whole 100) (
          f.add
            (f.add (f.mul (f.ratio (pos 5) 10) (shortage_ratio i))
              (f.mul (f.ratio (pos 35) 100) (coverage_risk i)))
            (f.mul (f.ratio (pos 15) 100) trend_risk)))

  unfoldable pub stockout_raw : Thresholds W → StockoutInput W → W
  stockout_raw t i =
      if f.le i.available_stock i.reorder_point && f.lt (whole 0) i.reorder_point
      then math_max (weighted_stockout i) (least_stockout t (shortage_ratio i))
      else weighted_stockout i

  unfoldable pub calculate_stockout_risk : Thresholds W → StockoutInput W → Scored W
  calculate_stockout_risk t i =
      if f.le i.available_stock (whole 0)
      then record { score = whole 100; severity = critical }
      else let score = clamp_score (stockout_raw t i) in
        record { score = score; severity = severity_of t score }
