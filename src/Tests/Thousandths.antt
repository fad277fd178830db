-- ===== src/Tests/Thousandths.antt =====
-- Numbers to three decimals, with `none` for NaN: they have the laws that are asked of the doubles.
use stock_pilot_be.Prelude.{
  ℕ, zero, suc, ◌+◌, ◌-◌, ◌*◌, ◌/◌, ◌≤◌, ◌≡◌, Bool, true, false, Option, none, some, leb, ltb,
  arith,
}
use stock_pilot_be.Prelude.Int.{pos_part}
use stock_pilot_be.Floats.{Floats, IsOrdered, IsNumber, ◌≼◌}
use stock_pilot_be.PricingEvaluator.{round_thousand}
use stock_pilot_be.PricingEvaluator.Fair.{RoundsInOrder}

abbrev pub Thousandths : Type 0
Thousandths = Option ℕ

abbrev compared : (ℕ → ℕ → Bool) → Thousandths → Thousandths → Bool
compared test (some a) (some b) = test a b
compared test (some a) none = false
compared test none b = false

abbrev lifted : (ℕ → ℕ → Thousandths) → Thousandths → Thousandths → Thousandths
lifted g (some a) (some b) = g a b
lifted g (some a) none = none
lifted g none b = none

abbrev mapped : (ℕ → ℕ) → Thousandths → Thousandths
mapped g (some a) = some (g a)
mapped g none = none

-- Nothing but NaN comes of a division by zero.
abbrev quotient : ℕ → ℕ → Thousandths
quotient a zero = none
quotient a (suc b) = some (a * 1_000 / suc b)

instance abbrev pub thousandths : Floats Thousandths
thousandths = record {
  ratio = λ n d. quotient (pos_part n) d;
  lt = compared ltb;
  le = compared leb;
  add = lifted (λ a b. some (a + b));
  sub = lifted (λ a b. some (a - b));
  mul = lifted (λ a b. some (a * b / 1_000));
  div = lifted quotient;
  ceil = mapped (λ a. (a + 999) / 1_000 * 1_000);
  floor = mapped (λ a. a / 1_000 * 1_000);
  round = mapped (λ a. (a + 500) / 1_000 * 1_000);
  sqrt = mapped (λ a. a);
  log = mapped (λ a. a);
  neg = mapped (λ a. 0);
  to_fixed = λ k. mapped (λ a. a);
}

pub Thousandths-IsOrdered : IsOrdered Thousandths
Thousandths-IsOrdered = ground arith

-- Rounding to thousands, on the numbers.
rounded : ℕ → ℕ
rounded a = (a * 1_000 / 1_000_000 + 500) / 1_000 * 1_000 * 1_000_000 / 1_000

rounded_mono : (a b : ℕ) → a ≤ b → rounded a ≤ rounded b
unfolding rounded
rounded_mono a b h = omega arith

pub Thousandths-RoundsInOrder : RoundsInOrder Thousandths
unfolding round_thousand rounded
Thousandths-RoundsInOrder = record { mono = mono; of_number = of_number }
  where
    mono : (x y : Thousandths) → x ≼ y → round_thousand x ≼ round_thousand y
    mono (some a) (some b) h = leb_of (rounded_mono a b (le_of h))
      where
        le_of : leb a b ≡ true → a ≤ b
        le_of e = ground arith

        leb_of : rounded a ≤ rounded b → leb (rounded a) (rounded b) ≡ true
        leb_of e = ground arith
    mono (some a) none h = cc
    mono none y h = cc

    of_number : (x : Thousandths) → IsNumber (round_thousand x) → IsNumber x
    of_number (some a) h = ground arith
    of_number none h = h
