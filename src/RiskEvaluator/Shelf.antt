-- ===== src/RiskEvaluator/Shelf.antt =====
-- risk-evaluator.ts: stock that does not sell, and demand out of the ordinary.
use stock_pilot_be.Prelude.{
  ℕ, ◌*◌, Bool, true, false, ◌&&◌, ◌||◌, Option, none, some, List, [], ◌∷◌, leb, if◌then◌else◌,
  length,
}
use stock_pilot_be.Prelude.Int.{pos, negsuc}
use stock_pilot_be.Floats.{Floats, whole}

pub data DeadStockSeverity : Type 0 where
  calm warning dead : DeadStockSeverity

pub data DemandType : Type 0 where
  usual critical_spike high_spike demand_drop new_demand_spike : DemandType

pub record DeadStock (W : Type 0) : Type 0 where
  pub is_slow_moving : Bool
  pub is_dead_stock : Bool
  pub severity : DeadStockSeverity
  pub cost_value : W
  pub retail_value : W

pub record UnusualDemand (W : Type 0) : Type 0 where
  pub is_anomaly : Bool
  pub type : DemandType
  pub z_score : W

module _ {W : Type 0} ⦃f : Floats W⦄ where
  -- Nothing is dead that is not on the shelf, or of which no day without a sale is known.
  unfoldable pub evaluate_slow_and_dead_stock : W → Option ℕ → ℕ → ℕ → W → W → DeadStock W
  evaluate_slow_and_dead_stock available none slow_days dead_days cost selling = record {
    is_slow_moving = false;
    is_dead_stock = false;
    severity = calm;
    cost_value = whole 0;
    retail_value = whole 0;
  }
  evaluate_slow_and_dead_stock available (some days) slow_days dead_days cost selling =
      if f.le available (whole 0)
      then record {
        is_slow_moving = false;
        is_dead_stock = false;
        severity = calm;
        cost_value = whole 0;
        retail_value = whole 0;
      }
      else record {
        is_slow_moving = leb slow_days days;
        is_dead_stock = leb dead_days days;
        severity =
            if leb (dead_days * 2) days
            then dead
            else if leb dead_days days || leb slow_days days
            then warning
            else calm;
        cost_value = f.to_fixed 2 (f.mul available cost);
        retail_value = f.to_fixed 2 (f.mul available selling);
      }

  unfoldable pub sum_quantities : W → List W → W
  sum_quantities acc [] = acc
  sum_quantities acc (q ∷ qs) = sum_quantities (f.add acc q) qs

  abbrev pub demand : Bool → DemandType → W → UnusualDemand W
  demand anomaly type z = record { is_anomaly = anomaly; type = type; z_score = z }

  -- By the deviation `z` of the recent mean.
  unfoldable pub judge_demand : W → UnusualDemand W
  judge_demand z =
      if f.le (whole 3) z
      then demand true critical_spike z
      else if f.le (whole 2) z
      then demand true high_spike z
      else if f.le z (f.ratio (negsuc 1) 1)
      then demand true demand_drop z
      else demand false usual z

  -- On the net quantities of the recent days.
  unfoldable pub detect_unusual_demand : List W → W → W → UnusualDemand W
  detect_unusual_demand [] mean std_dev = demand false usual (whole 0)
  detect_unusual_demand (q ∷ qs) mean std_dev =
      let n = whole (length (q ∷ qs)) in
      let quantity = sum_quantities (whole 0) (q ∷ qs) in
      if f.lt (f.mul mean n) (whole 5) || f.le std_dev (f.ratio (pos 5) 100)
      then (if f.le mean (f.ratio (pos 5) 100) && f.le (whole 3) quantity
          then demand true new_demand_spike (f.ratio (pos 35) 10)
          else demand false usual (whole 0))
      else judge_demand
          (f.to_fixed 2 (f.div (f.sub (f.div quantity n) mean) (f.div std_dev (f.sqrt n))))
