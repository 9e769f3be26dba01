-- ===== src/Rebalance.antt =====
-- One rebalance (rebalance/): its checks, its payments, what it learns from them and its result.
pub mod Result
pub mod Errors
pub mod Split
pub mod Checks
pub mod Routing
pub mod Codes
pub mod Failure
pub mod Attempt
pub mod Run
pub mod Tally
pub mod Prices
pub mod AttemptLaws
pub mod Blame
pub mod Shortage
pub mod Turns
pub mod Answers
pub mod RunLaws
