-- ===== src/StockTakes/Status.antt =====
-- The status tests of a stock take: stock-take.service.ts.
use stock_pilot_be.Prelude.{Bool, true, false}
use stock_pilot_be.Schema.{StockTakeStatus}

abbrev pub is_draft : StockTakeStatus → Bool
is_draft StockTakeStatus.draft = true
is_draft StockTakeStatus.in_progress = false
is_draft StockTakeStatus.completed = false
is_draft StockTakeStatus.canceled = false

abbrev pub is_in_progress : StockTakeStatus → Bool
is_in_progress StockTakeStatus.draft = false
is_in_progress StockTakeStatus.in_progress = true
is_in_progress StockTakeStatus.completed = false
is_in_progress StockTakeStatus.canceled = false

-- `status: { in: [DRAFT, IN_PROGRESS] }`
abbrev pub is_open : StockTakeStatus → Bool
is_open StockTakeStatus.draft = true
is_open StockTakeStatus.in_progress = true
is_open StockTakeStatus.completed = false
is_open StockTakeStatus.canceled = false
