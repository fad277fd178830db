-- ===== src/RiskEvaluator.antt =====
-- src/modules/decision-engine/risk-evaluator.ts: the stock that an item needs, and the risks that it runs.
-- Quantities and scores are doubles, as in the source; whole days are numbers.
pub mod Normal
pub mod Supply
pub mod Grades
pub mod Overstock
pub mod Shelf
pub mod Reorder
pub mod Scores
