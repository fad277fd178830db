-- ===== src/Lib.antt =====
-- The StockPilot backend: the stock of a store, and the sales, returns and counts that change it.
--
-- The parts, and how they interact. Every change of stock is a posting of the stock ledger: one row
-- of inventory_balances changes, and one row of stock_movements says from what to what. The services
-- for orders, sales at the counter, returns, the inventory and stock takes each run one database
-- transaction that checks the state of its own tables, posts to the ledger and writes audit rows.
--
--   Prelude     shared names; integers, rows, sorting and results, with their lemmas
--   Schema      prisma/schema.prisma: the tables, as lists of rows in one Database
--   Ledger      src/modules/inventory/stock-ledger.service.ts: normalizeItems (Normalize),
--               atomicDeduct (atomic_deduct), atomicAdd (atomic_add), replaceWithCount
--               (replace_with_count). Ledger/Posting says what a ledger promises: journals of postings.
--               The other modules below it are about the three methods as postings (Write, Deduct, Add,
--               Count), every quantity after them (Effect), a stock that suffices (Supply), and the
--               other tables (Rest)
--   Audit       src/common/services/audit-log.service.ts: create (audit), sanitize (Snapshot) and what a
--               snapshot holds (Snapshot/Clean)
--   Orders      src/modules/orders/order.service.ts: createDraftOrder (Create, with the money in Draft
--               and Balance, and what the columns keep of it in Columns), confirmOrder, fulfillOrder, cancelOrder (Orders, with the states in
--               Lifecycle, their guards in Guards, the stock in Stock and Cancel), the test for staff
--               (Access)
--   Returns     src/modules/returns/return.service.ts: createReturn (create_return), its merging of
--               lines (Request), its prices (Refund), the limits of a line (Limits), the sums (Money)
--               and the stock (Stock)
--   Inventory   src/modules/inventory/inventory.service.ts: inflow, outflow, audit (audit_stock)
--   Pos         src/modules/pos/pos.service.ts: createCashSale (create_cash_sale), its lines (Sale), its
--               money (Money) and its stock (Stock)
--   StockTakes  src/modules/stock-takes/stock-take.service.ts: create, start, updateCounts
--               (update_counts), complete, cancel; its states (Lifecycle, Guards), its lines (Counts) and
--               the stock (Complete)
--   Payos       src/modules/pos/pos-payos.service.ts: the order codes (Code), verifyPayosSignature
--               (Signature), handleWebhook and checkPaymentStatus (Payos, with what a webhook must show in
--               Trust and the settlement in Settle and Deliver), createPaymentLink (Link, with its rows
--               in Remove and Promise)
--   Idempotency src/common/middleware/idempotency.ts: the middleware (idempotency, enter), its completion
--               hooks (complete_request), recoverCommittedOutcome (Recovery); no second run (Held), the
--               row of a run (Lease), the answers after it (Replay)
--   DbLease     src/common/services/db-lease.service.ts: tryAcquire, release, runExclusive
--   LoginGuard  src/common/services/login-guard.service.ts: getLockState, assertNotLocked, recordFailure
--               (LoginGuard, with its lists of times in Times and its laws in Lock)
--   Sessions    src/modules/auth/auth.service.ts: refreshToken (refresh_token, rotate), logout; the use
--               of a token once (Rotation)
--   TwoFactor   src/common/services/two-factor.service.ts: consumeSecondFactor, with verifyTotp of
--               totp.service.ts beside it; the use of a code once (Fresh)
--   Login       src/modules/auth/auth.service.ts: login, on LoginGuard, TwoFactor and Sessions; who is let
--               in (Admitted)
--   PasswordReset  src/modules/auth/auth.service.ts: forgotPassword, verifyOtp, resetPassword; what a reset
--               leaves (Effect), that it happens once (Once), a code that is redeemed (Redeem)
--   RecomputeQueue  src/modules/decision-engine/recompute-queue.ts: enqueue, flush and drain, the end of a
--               drain (Drain), the work that it does (Work), what keeps it going (Awake)
--   Floats      the numbers of JavaScript, as a parameter: their operations, Math.max and Math.min, their
--               order away from NaN
--   PricingEvaluator  src/modules/decision-engine/pricing-evaluator.ts: calculateMinimumPrice and
--               evaluatePricing, its input and result (Input), and what a recommended price keeps to
--               (Fair)
--   RiskEvaluator  src/modules/decision-engine/risk-evaluator.ts: the normal quantile (Normal), stock and
--               orders (Supply), confidence and stockout risk (Grades), overstock risk (Overstock), dead
--               stock and unusual demand (Shelf); the bounds of the scores (Scores) and of the quantities
--               (Reorder)
--   Pricing     src/modules/pricing/pricing.service.ts: the tables and their locks (Pricing), the decisions
--               on a recommendation (Decisions), the syncing of an evaluation (Recommend); the change of
--               prices in src/modules/products/product.service.ts (Manual). What a decision has checked
--               (Open) and what it does to a price (Applied); the order of the tables (Rows, Book) under
--               each operation (Steps, Repriced) and any number of them (Decided)
--   SensitiveFields  src/common/middleware/sensitive-fields.ts: maskSensitiveFields (mask); what an answer
--               holds (Masked) and what it does not depend on (Hidden)
--   System      the transactions of these services as steps on one database (Step, Steps), and the stock
--               after any number of them (Stock)
--   Tests       a small shop, runs of the services on it, and the listed theorems applied to it
--
-- How the code is modelled. A method takes the database and returns a Result: its value with the new
-- database, or the failure that it throws. A failure returns no database, as a transaction that throws
-- is rolled back. A method reads and writes its tables in the order of the source; the lookups that a
-- method makes before its transaction see the same database. A where clause is a Boolean test on rows,
-- and findFirst the first row that fits. An updateMany on a unique key with further conditions writes
-- the row of the key if the conditions hold of it, and otherwise counts no row; an updateMany whose
-- conditions name no unique key writes every row that fits. A unique index that an insert would break
-- is the failure unique_violation. Ids come from one counter, next_id. The results of the database's
-- row locks are the rows themselves: transactions are taken one after the other.
--
-- Where a method reads first and writes in a transaction of its own later, other requests can come
-- between: such a method is two functions, what it decides on from what it read (webhook_decision,
-- poll_decision, the lookup of idempotency) and what it then does to the tables as they are by then
-- (perform, enter). createPaymentLink is no transaction, and returns its tables with an error too.
-- A payment service's answers, the HMAC and the secrets are parameters, of which nothing is assumed.
--
-- Loops are structural recursion on the list that the source walks, or on the attempts that are left;
-- decimal writes a number with fuel one above the number, and a number has fewer digits than that.
--
-- Amounts of money are integers of the smallest unit, exact under +, - and multiplication by a whole
-- number. The decimal library's division and rounding, and what a column DECIMAL(15, 2) keeps of an
-- amount, are a parameter, the record Decimals; where a statement needs to know more of it, it asks for
-- IsExact (dividing up nothing gives nothing, and an amount of two decimals is its own rounding) or for
-- HasColumns (what has two decimals, which a column keeps). A draft order stores its amounts unrounded,
-- through their columns; the point of sale and the returns round theirs first. The clock, and the order and return numbers made from
-- it and from random digits, are arguments. Where the source computes with doubles, the operations are a
-- parameter, the record Floats; what a theorem needs of them, the order of the numbers that are not NaN
-- and the rounding to thousands, are hypotheses, which numbers of three decimals meet (Tests.Thousandths).
--
-- Not modelled: the request schemas (what they promise, positive and non-negative quantities, are
-- hypotheses), notes and messages, the snapshots in the rows of the audit log, the sync of the summaries after a commit, the
-- overflow of a database column, and the pages that list rows. The other services (the gathering of the
-- decision engine's inputs, alerts, imports, registration, support and the assistant) are
-- not modelled here.
pub mod Prelude
pub mod Schema
pub mod Floats
pub mod PricingEvaluator
pub mod RiskEvaluator
pub mod Ledger
pub mod Audit
pub mod Orders
pub mod Returns
pub mod Inventory
pub mod Pos
pub mod Login
pub mod PasswordReset
pub mod Payos
pub mod Idempotency
pub mod DbLease
pub mod LoginGuard
pub mod Sessions
pub mod TwoFactor
pub mod RecomputeQueue
pub mod Pricing
pub mod SensitiveFields
pub mod StockTakes
pub mod System
pub mod Tests
