-- ===== src/RiskEvaluator/Supply.antt =====
-- risk-evaluator.ts: the stock that an item needs, and the quantity to order.
use stock_pilot_be.Prelude.{Bool, not, ◌&&◌, Option, none, some, if◌then◌else◌}
use stock_pilot_be.Floats.{Floats, whole, math_max, math_min}
use stock_pilot_be.RiskEvaluator.Normal.{at_least_one, z_score_for_service_level}

pub data SafetyStockMethod : Type 0 where
  statistical fallback_safety_days : SafetyStockMethod

pub record SafetyStockResult (W : Type 0) : Type 0 where
  pub safety_stock : W
  pub method : SafetyStockMethod
  pub z_score : W

pub record ReorderInput (W : Type 0) : Type 0 where
  pub available_stock : W
  pub reorder_point : W
  pub avg_daily_demand : W
  pub lead_time_days : W
  pub target_coverage_days : W
  pub safety_stock : W
  pub min_stock_level : W
  pub max_stock_level : W
  pub has_sufficient_history : Bool

module _ {W : Type 0} ⦃f : Floats W⦄ where
  unfoldable pub safety_stock_by : W → W → W → W → W → Bool → SafetyStockResult W
  safety_stock_by z std_dev lead avg safety_days sufficient =
      if sufficient && f.lt (whole 0) std_dev
      then record {
        safety_stock =
            math_max (whole 0) (f.ceil (f.mul (f.mul z std_dev) (f.sqrt (at_least_one lead))));
        method = statistical;
        z_score = z;
      }
      else record {
        safety_stock = math_max (whole 0) (f.ceil (f.mul avg (at_least_one safety_days)));
        method = fallback_safety_days;
        z_score = z;
      }

  unfoldable pub calculate_safety_stock : W → W → W → W → W → Bool → Option (SafetyStockResult W)
  calculate_safety_stock std_dev lead level avg safety_days sufficient =
      elim (z_score_for_service_level level) [
        | none ↦ none
        | some z ↦ some (safety_stock_by z std_dev lead avg safety_days sufficient)
      ]

  unfoldable pub calculate_reorder_point : W → W → W → W
  calculate_reorder_point avg lead safety_stock =
      f.ceil (f.add (f.mul avg (at_least_one lead)) safety_stock)

  -- `maxStockLevel > 0 ? … : Number.POSITIVE_INFINITY`, where `none` is no cap.
  unfoldable pub reorder_cap : ReorderInput W → Option W
  reorder_cap i =
      if f.lt (whole 0) i.max_stock_level
      then some (math_max (whole 0) (f.sub i.max_stock_level i.available_stock))
      else none

  abbrev pub capped : Option W → W → W
  capped none q = q
  capped (some cap) q = math_min cap q

  -- The quantity up to the target level, for the demand until the order after the next.
  unfoldable pub up_to_target : ReorderInput W → W
  up_to_target i =
      let target_level =
        f.add
          (f.mul i.avg_daily_demand (f.add (at_least_one i.lead_time_days) i.target_coverage_days))
          i.safety_stock in
      math_max (whole 0) (f.ceil (f.sub target_level i.available_stock))

  unfoldable pub refill : ReorderInput W → W
  refill i = math_max (whole 0) (
      f.sub (if f.lt (whole 0) i.max_stock_level then i.max_stock_level else i.min_stock_level)
        i.available_stock)

  unfoldable pub calculate_reorder_quantity : ReorderInput W → W
  calculate_reorder_quantity i =
      if f.lt i.reorder_point i.available_stock
      then whole 0
      else if not i.has_sufficient_history
      then refill i
      else capped (reorder_cap i) (up_to_target i)

  unfoldable pub calculate_days_of_cover : W → W → Option W
  calculate_days_of_cover available avg =
      if f.le avg (whole 0) then none else some (f.to_fixed 1 (f.div available avg))
