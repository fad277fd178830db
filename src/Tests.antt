-- ===== src/Tests.antt =====
-- A small shop, runs of the services on it, and the theorems applied to it.
mod Cents
mod Shop
mod Runs
mod Stock
mod Sales
mod Refunds
mod Counting
mod Counter
mod Payments
mod Requests
mod Guarding
mod System
mod SignIn
mod Passwords
mod Entry
mod Queueing
mod Thousandths
mod Advice
mod Prices
mod Answers
