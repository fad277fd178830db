-- ===== src/Tests/Cents.antt =====
-- Decimals in thousandths: a column of two decimals rounds its amounts to tens, halves away from zero.
use stock_pilot_be.Prelude.{
  ℕ, suc, ◌+◌, ◌-◌, ◌*◌, ◌/◌, ◌≡◌, refl, subst, arith, leb, Bool-cases, inl, inr,
}
use stock_pilot_be.Prelude.Int.{ℤ, pos, negsuc, pos_part, neg_part, sub_ℕ, ◌+ℤ◌, ◌-ℤ◌, ◌*ℤ◌}
use stock_pilot_be.Orders.Draft.{Decimals}
use stock_pilot_be.Orders.Columns.{HasColumns}
use stock_pilot_be.Tests.Shop.{plain}

abbrev half_up : ℕ → ℕ
half_up n = (n + 5) / 10 * 10

abbrev to_tens : ℤ → ℤ
to_tens a = sub_ℕ (half_up (pos_part a)) (half_up (neg_part a))

abbrev pub in_thousandths : Decimals
in_thousandths = record {
  mul_div_round = λ a b c. to_tens (plain.mul_div_round a b c);
  round = to_tens;
  column = to_tens;
}

-- Both parts of the amount are tens.
record AreTens (a : ℤ) : Type 0 where
  p : ℕ
  n : ℕ
  above : pos_part a ≡ 10 * p
  below : neg_part a ≡ 10 * n

half_up_tens : (p : ℕ) → half_up (10 * p) ≡ 10 * p
half_up_tens p = omega arith

sub-AreTens : (x y p n : ℕ) → x ≡ 10 * p → y ≡ 10 * n → AreTens (sub_ℕ x y)
sub-AreTens x y p n h k = elim (Bool-cases (leb y x)) [
  | inl e ↦ rw e (record { p = p - n; n = 0; above = ground arith; below = refl })
  | inr e ↦ rw e (record { p = 0; n = n - p; above = refl; below = ground arith })
]

to_tens-AreTens : (a : ℤ) → AreTens (to_tens a)
to_tens-AreTens a =
    sub-AreTens _ _ ((pos_part a + 5) / 10) ((neg_part a + 5) / 10) (omega arith) (omega arith)

AreTens-IsStored : (a : ℤ) → AreTens a → to_tens a ≡ a
AreTens-IsStored (pos m) t =
    let same : half_up m ≡ m = rw t.above (half_up_tens t.p) in rw same (ground arith)
AreTens-IsStored (negsuc m) t =
    let same : half_up (suc m) ≡ suc m = rw t.below (half_up_tens t.n) in rw same (ground arith)

IsStored-AreTens : (a : ℤ) → to_tens a ≡ a → AreTens a
IsStored-AreTens a e = subst AreTens e (to_tens-AreTens a)

tens_times : (p q r s : ℕ) → 10 * p * q + 10 * r * s ≡ 10 * (p * q + r * s)
tens_times p q r s = grind arith

sum-AreTens : (a b : ℤ) → AreTens a → AreTens b → AreTens (a +ℤ b)
unfolding ◌+ℤ◌
sum-AreTens a b s t =
    sub-AreTens _ _ (s.p + t.p) (s.n + t.n) (rw (s.above, t.above) (omega arith))
      (rw (s.below, t.below) (omega arith))

difference-AreTens : (a b : ℤ) → AreTens a → AreTens b → AreTens (a -ℤ b)
unfolding ◌-ℤ◌
difference-AreTens a b s t =
    sub-AreTens _ _ (s.p + t.n) (s.n + t.p) (rw (s.above, t.below) (omega arith))
      (rw (s.below, t.above) (omega arith))

multiple-AreTens : (a q : ℤ) → AreTens a → AreTens (a *ℤ q)
unfolding ◌*ℤ◌
multiple-AreTens a q t =
    sub-AreTens _ _ (t.p * pos_part q + t.n * neg_part q) (t.p * neg_part q + t.n * pos_part q)
      (rw (t.above, t.below) (tens_times _ _ _ _)) (rw (t.above, t.below) (tens_times _ _ _ _))

pub in_thousandths-HasColumns : HasColumns in_thousandths
in_thousandths-HasColumns = record {
  nothing = refl;
  sums =
      λ a b h k. AreTens-IsStored _ (sum-AreTens a b (IsStored-AreTens a h) (IsStored-AreTens b k));
  differences = λ a b h k.
      AreTens-IsStored _ (difference-AreTens a b (IsStored-AreTens a h) (IsStored-AreTens b k));
  multiples = λ a q h. AreTens-IsStored _ (multiple-AreTens a q (IsStored-AreTens a h));
  rounded = λ a. AreTens-IsStored _ (to_tens-AreTens a);
}
