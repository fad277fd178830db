-- ===== src/RiskEvaluator/Overstock.antt =====
-- risk-evaluator.ts: the risk of too much stock.
use stock_pilot_be.Prelude.{Bool, ◌&&◌, Option, none, some, List, [], ◌∷◌, ◌++◌, if◌then◌else◌}
use stock_pilot_be.Prelude.Int.{pos}
use stock_pilot_be.Prelude.Rows.{holds}
use stock_pilot_be.Floats.{Floats, whole, math_max, math_min}
use stock_pilot_be.RiskEvaluator.Grades.{Scored, Thresholds, severity_of}

pub data OverstockDriver : Type 0 where
  above_max_level excess_coverage falling_demand : OverstockDriver

pub record OverstockInput (W : Type 0) : Type 0 where
  pub available_stock : W
  pub max_stock_level : W
  pub days_of_cover : Option W
  pub target_coverage_days : W
  pub trend_ratio : W
  pub replenishment_level : Option W

pub record OverstockDetail (W : Type 0) : Type 0 where
  pub drivers : List OverstockDriver
  pub units_above_max : W
  pub coverage_multiple : Option W
  pub units_beyond_target_cover : W

abbrev when : {A : Type 0} → Bool → A → List A
when test a = if test then a ∷ [] else []

module _ {W : Type 0} ⦃f : Floats W⦄ where
  unfoldable pub saturate : W → W → W
  saturate x half = if f.lt (whole 0) x then f.div x (f.add x half) else whole 0

  module _ (i : OverstockInput W) where
    abbrev pub units_above : W
    units_above =
        if f.lt (whole 0) i.max_stock_level
        then math_max (whole 0) (f.sub i.available_stock i.max_stock_level)
        else whole 0

    abbrev pub excess_ratio : W
    excess_ratio =
        if f.lt (whole 0) i.max_stock_level then f.div units_above i.max_stock_level else whole 0

    abbrev pub target_days : W
    target_days = math_max i.target_coverage_days (whole 1)

    unfoldable pub daily_demand : W
    daily_demand = elim i.days_of_cover [
      | some d ↦ if f.lt (whole 0) d then f.div i.available_stock d else whole 0
      | none ↦ whole 0
    ]

    -- Days of cover over the target, where the demand is known.
    unfoldable pub multiple : Option W
    multiple = elim i.days_of_cover [
      | some d ↦ if f.lt (whole 0) daily_demand then some (f.div d target_days) else none
      | none ↦ none
    ]

    abbrev pub units_beyond : W
    units_beyond = elim multiple [
      | some _ ↦
          math_max (whole 0) (f.floor (f.sub i.available_stock (f.mul daily_demand target_days)))
      | none ↦ whole 0
    ]

    abbrev pub replenishment : W
    replenishment = math_max (whole 0) (elim i.replenishment_level [ some l ↦ l | none ↦ whole 0 ])

    abbrev pub coverage_counts : Bool
    coverage_counts =
        holds (λ m. f.lt (whole 1) m) multiple
        && f.lt replenishment i.available_stock
        && f.le (whole 1) units_beyond

    abbrev pub excess_cover : W
    excess_cover = elim multiple [
      | some m ↦ if coverage_counts then saturate (f.sub m (whole 1)) (whole 2) else whole 0
      | none ↦ whole 0
    ]

    -- `1 - (1 - a)(1 - b)`
    abbrev pub excess : W
    excess = f.sub (whole 1) (
        f.mul (f.sub (whole 1) (saturate excess_ratio (f.ratio (pos 5) 10)))
          (f.sub (whole 1) excess_cover))

    abbrev pub decline_risk : W
    decline_risk =
        if f.lt (whole 0) excess && f.le (whole 5) (f.mul daily_demand (whole 7))
        then math_min (math_max (f.sub (whole 1) i.trend_ratio) (whole 0)) (whole 1)
        else whole 0

    unfoldable pub graded_overstock : W
    graded_overstock = math_min (whole 100) (
        f.round (
          f.mul (f.mul (whole 100) excess)
            (f.add (whole 1) (f.mul (f.ratio (pos 25) 100) decline_risk))))

    unfoldable pub overstock_score : Thresholds W → W
    overstock_score t =
        if f.lt (whole 0) units_above
        then math_max graded_overstock
            (if f.le (f.ratio (pos 5) 10) excess_ratio then t.high_threshold else t.low_threshold)
        else graded_overstock

    unfoldable pub overstock_drivers : List OverstockDriver
    overstock_drivers =
        when (f.lt (whole 0) units_above) above_max_level
        ++ (when (f.lt (whole 0) excess_cover) excess_coverage
            ++ when (f.lt (whole 0) decline_risk) falling_demand)

    unfoldable pub calculate_overstock_risk : Thresholds W → Scored W × OverstockDetail W
    calculate_overstock_risk t =
        let score = overstock_score t in
        (
          record { score = score; severity = severity_of t score },
          record {
            drivers = overstock_drivers;
            units_above_max = units_above;
            coverage_multiple = elim multiple [ some m ↦ some (f.to_fixed 1 m) | none ↦ none ];
            units_beyond_target_cover = if coverage_counts then units_beyond else whole 0;
          },
        )
