-- ===== src/RiskEvaluator/Normal.antt =====
-- risk-evaluator.ts: the standard normal quantile, and the days that count as one at least.
use stock_pilot_be.Prelude.{◌||◌, Option, none, some, List, [], ◌∷◌, if◌then◌else◌}
use stock_pilot_be.Prelude.Int.{pos, negsuc}
use stock_pilot_be.Floats.{Floats, whole, math_max, math_min}

module _ {W : Type 0} ⦃f : Floats W⦄ where
  abbrev pub at_least_one : W → W
  at_least_one days = math_max (whole 1) days

  -- `((c0 * x + c1) * x + …)`
  unfoldable pub horner : W → W → List W → W
  horner x acc [] = acc
  horner x acc (c ∷ cs) = horner x (f.add (f.mul acc x) c) cs

  -- The coefficients of Acklam's approximation.
  abbrev coefficients_a : List W
  coefficients_a =
      f.ratio (pos 2_209_460_984_245_205) 10_000_000_000_000
      ∷ f.ratio (negsuc 2_759_285_104_469_686) 10_000_000_000_000
      ∷ f.ratio (pos 138_357_751_867_269) 1_000_000_000_000
      ∷ f.ratio (negsuc 3_066_479_806_614_715) 100_000_000_000_000
      ∷ f.ratio (pos 2_506_628_277_459_239) 1_000_000_000_000_000
      ∷ []

  abbrev coefficients_b : List W
  coefficients_b =
      f.ratio (pos 1_615_858_368_580_409) 10_000_000_000_000
      ∷ f.ratio (negsuc 1_556_989_798_598_865) 10_000_000_000_000
      ∷ f.ratio (pos 6_680_131_188_771_972) 100_000_000_000_000
      ∷ f.ratio (negsuc 1_328_068_155_288_571) 100_000_000_000_000
      ∷ whole 1
      ∷ []

  abbrev coefficients_c : List W
  coefficients_c =
      f.ratio (negsuc 3_223_964_580_411_364) 10_000_000_000_000_000
      ∷ f.ratio (negsuc 2_400_758_277_161_837) 1_000_000_000_000_000
      ∷ f.ratio (negsuc 2_549_732_539_343_733) 1_000_000_000_000_000
      ∷ f.ratio (pos 4_374_664_141_464_968) 1_000_000_000_000_000
      ∷ f.ratio (pos 2_938_163_982_698_783) 1_000_000_000_000_000
      ∷ []

  abbrev coefficients_d : List W
  coefficients_d =
      f.ratio (pos 3_224_671_290_700_398) 10_000_000_000_000_000
      ∷ f.ratio (pos 2_445_134_137_142_996) 1_000_000_000_000_000
      ∷ f.ratio (pos 3_754_408_661_907_416) 1_000_000_000_000_000
      ∷ whole 1
      ∷ []

  -- Both tails, at the distance `p` from their end, with the sign of the numerator.
  unfoldable pub normal_tail : (W → W) → W → W
  normal_tail sign p =
      let q = f.sqrt (f.mul (f.neg (whole 2)) (f.log p)) in
      f.div
        (sign (
          horner q (f.ratio (negsuc 7_784_894_002_430_292) 1_000_000_000_000_000_000)
            coefficients_c))
        (horner q (f.ratio (pos 7_784_695_709_041_462) 1_000_000_000_000_000_000) coefficients_d)

  unfoldable pub normal_middle : W → W
  normal_middle p =
      let q = f.sub p (f.ratio (pos 5) 10) in
      let r = f.mul q q in
      f.div
        (f.mul
          (horner r (f.ratio (negsuc 3_969_683_028_665_375) 100_000_000_000_000) coefficients_a) q)
        (horner r (f.ratio (negsuc 5_447_609_879_822_405) 100_000_000_000_000) coefficients_b)

  -- `none` is the RangeError.
  unfoldable pub inverse_standard_normal : W → Option W
  inverse_standard_normal p =
      if f.le p (whole 0) || f.le (whole 1) p
      then none
      else if f.lt p (f.ratio (pos 2_425) 100_000)
      then some (normal_tail (λ x. x) p)
      else if f.lt (f.sub (whole 1) (f.ratio (pos 2_425) 100_000)) p
      then some (normal_tail f.neg (f.sub (whole 1) p))
      else some (normal_middle p)

  unfoldable pub bounded_level : W → W
  bounded_level level = math_min (f.ratio (pos 9_999) 10_000) (math_max (f.ratio (pos 5) 10) level)

  unfoldable pub z_score_for_service_level : W → Option W
  z_score_for_service_level level = elim (inverse_standard_normal (bounded_level level)) [
    | none ↦ none
    | some z ↦ some (f.to_fixed 3 z)
  ]
