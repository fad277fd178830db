-- ===== src/Floats.antt =====
-- The numbers of JavaScript, as far as the evaluators of the decision engine use them. The operations
-- are a parameter: nothing is assumed of the rounding of a sum, a product or a quotient.
use stock_pilot_be.Prelude.{ℕ, ◌≡◌, inl, inr, refl, Bool, true, false, if◌then◌else◌, Bool-cases}
use stock_pilot_be.Prelude.Int.{ℤ, pos}

-- `ratio n d` is the double nearest to n / d, such as a literal or a column of a fixed scale;
-- `to_fixed k x` is `Number(x.toFixed(k))`.
pub record Floats (W : Type 0) : Type 0 where
  pub ratio : ℤ → ℕ → W
  pub lt : W → W → Bool
  pub le : W → W → Bool
  pub add : W → W → W
  pub sub : W → W → W
  pub mul : W → W → W
  pub div : W → W → W
  pub ceil : W → W
  pub floor : W → W
  pub round : W → W
  pub sqrt : W → W
  pub log : W → W
  pub neg : W → W
  pub to_fixed : ℕ → W → W

module _ {W : Type 0} ⦃f : Floats W⦄ where
  infix 4 ◌≼◌ ◌≺◌
  abbrev pub ◌≼◌ : W → W → Type 0
  x ≼ y = f.le x y ≡ true

  abbrev pub ◌≺◌ : W → W → Type 0
  x ≺ y = f.lt x y ≡ true

  -- NaN is the value that is not `<=` itself.
  abbrev pub IsNumber : W → Type 0
  IsNumber x = x ≼ x

  -- A whole number.
  abbrev pub whole : ℕ → W
  whole n = f.ratio (pos n) 1

  -- `Math.max` and `Math.min`: NaN where an argument is.
  unfoldable pub math_max : W → W → W
  math_max a b = if f.le a a then (if f.le b b then (if f.le a b then b else a) else b) else a

  unfoldable pub math_min : W → W → W
  math_min a b = if f.le a a then (if f.le b b then (if f.le a b then a else b) else b) else a

-- The order of the doubles: total away from NaN, with which every comparison is false.
pub record IsOrdered (W : Type 0) ⦃f : Floats W⦄ : Type 0 where
  pub le_number : (x y : W) → x ≼ y → IsNumber x × IsNumber y
  pub lt_le : (x y : W) → x ≺ y → x ≼ y
  pub le_trans : (x y z : W) → x ≼ y → y ≼ z → x ≼ z
  pub lt_le_trans : (x y z : W) → x ≺ y → y ≼ z → x ≺ z
  pub le_lt_trans : (x y z : W) → x ≼ y → y ≺ z → x ≺ z
  pub not_le_of_lt : (x y : W) → x ≺ y → f.le y x ≡ false
  pub le_of_not_lt : (x y : W) → IsNumber x → IsNumber y → f.lt x y ≡ false → y ≼ x
  pub le_of_not_le : (x y : W) → IsNumber x → IsNumber y → f.le x y ≡ false → y ≼ x

module _ {W : Type 0} ⦃f : Floats W⦄ where
  module _ (order : IsOrdered W) (a b : W) where
    -- A maximum that is a number is one of two numbers and at least either.
    pub math_max_bounds :
        IsNumber (math_max a b) → IsNumber a × IsNumber b × (a ≼ math_max a b) × (b ≼ math_max a b)
    unfolding math_max
    math_max_bounds n = elim (Bool-cases (f.le a a)) [
      | inr ea ↦ absurd (clash _ (rw ea at n) ea)
      | inl ea ↦ elim (Bool-cases (f.le b b)) [
        | inr eb ↦ absurd (clash _ (rw (ea, eb) at n) eb)
        | inl eb ↦ elim (Bool-cases (f.le a b)) [
          | inl e ↦ rw (ea, eb, e) (refl, refl, e, eb)
          | inr e ↦ rw (ea, eb, e) (refl, refl, ea, order.le_of_not_le a b ea eb e)
        ]
      ]
    ]
      where
        clash : (c : Bool) → c ≡ true → c ≡ false → ⊥
        clash c h k = cc

    pub math_max-IsNumber : IsNumber a → IsNumber b → IsNumber (math_max a b)
    unfolding math_max
    math_max-IsNumber ea eb =
        rw (ea, eb) (elim (Bool-cases (f.le a b)) [ inl e ↦ rw e eb | inr e ↦ rw e ea ])

    pub math_min-IsNumber : IsNumber a → IsNumber b → IsNumber (math_min a b)
    unfolding math_min
    math_min-IsNumber ea eb =
        rw (ea, eb) (elim (Bool-cases (f.le a b)) [ inl e ↦ rw e ea | inr e ↦ rw e eb ])

    pub math_min_bounds : IsNumber a → IsNumber b → (math_min a b ≼ a) × (math_min a b ≼ b)
    unfolding math_min
    math_min_bounds ea eb =
        rw (ea, eb)
          (elim (Bool-cases (f.le a b)) [
            | inl e ↦ rw e (ea, e)
            | inr e ↦ rw e (order.le_of_not_le a b ea eb e, eb)
          ])

    -- A minimum of two values that are at least a third is at least the third.
    pub math_min_glb : (c : W) → c ≼ a → c ≼ b → c ≼ math_min a b
    unfolding math_min
    math_min_glb c ca cb =
        rw ((order.le_number c a ca).1, (order.le_number c b cb).1)
          (elim (Bool-cases (f.le a b)) [ inl e ↦ rw e ca | inr e ↦ rw e cb ])

    pub math_min_numbers : IsNumber (math_min a b) → IsNumber a × IsNumber b
    unfolding math_min
    math_min_numbers n = elim (Bool-cases (f.le a a)) [
      | inr ea ↦ absurd (clash _ (rw ea at n) ea)
      | inl ea ↦ elim (Bool-cases (f.le b b)) [
        | inr eb ↦ absurd (clash _ (rw (ea, eb) at n) eb)
        | inl eb ↦ (ea, eb)
      ]
    ]
      where
        clash : (c : Bool) → c ≡ true → c ≡ false → ⊥
        clash c h k = cc

    -- A maximum of two values that are at most a third is at most the third.
    pub math_max_lub : (c : W) → a ≼ c → b ≼ c → math_max a b ≼ c
    unfolding math_max
    math_max_lub c ac bc =
        rw ((order.le_number a c ac).0, (order.le_number b c bc).0)
          (elim (Bool-cases (f.le a b)) [ inl e ↦ rw e bc | inr e ↦ rw e ac ])
