-- ===== src/Tests/Stock.antt =====
-- The stock ledger's theorems on the shop.
use stock_pilot_be.Prelude.{refl, arith}
use stock_pilot_be.Prelude.Int.{pos}
use stock_pilot_be.Prelude.Result.{Ensures, IsOk}
use stock_pilot_be.Schema.{MovementType}
use stock_pilot_be.Ledger.{atomic_deduct, atomic_add, replace_with_count}
use stock_pilot_be.Ledger.Posting.{Journal}
use stock_pilot_be.Ledger.Deduct.{atomic_deduct-Journal}
use stock_pilot_be.Ledger.Add.{atomic_add-Journal}
use stock_pilot_be.Ledger.Count.{replace_with_count-Journal, posted_movement}
use stock_pilot_be.Ledger.Supply.{atomic_deduct-IsOk}
use stock_pilot_be.Tests.Shop.{
  shop, context, lines, lines-IsPositive, shop-IsStocked, lines-IsActive, lines-enough,
}

atomic_deduct-Journal_example :
    Ensures (λ r. Journal r.0 shop r.1) (atomic_deduct context MovementType.outflow lines shop)
atomic_deduct-Journal_example = atomic_deduct-Journal context MovementType.outflow lines shop

atomic_add-Journal_example :
    Ensures (λ r. Journal r.0 shop r.1) (atomic_add context MovementType.inflow lines shop)
atomic_add-Journal_example =
    atomic_add-Journal context MovementType.inflow lines shop shop-IsStocked

replace_with_count-Journal_example :
    Ensures
      (λ r. Journal (posted_movement r.0) shop r.1)
      (replace_with_count context 10 (pos 9) MovementType.audit_adjustment shop)
replace_with_count-Journal_example =
    replace_with_count-Journal context 10 (pos 9) MovementType.audit_adjustment shop (omega arith)

atomic_deduct-IsOk_example : IsOk (atomic_deduct context MovementType.outflow lines shop)
atomic_deduct-IsOk_example =
    atomic_deduct-IsOk context MovementType.outflow lines shop refl lines-IsPositive lines-IsActive
      lines-enough
