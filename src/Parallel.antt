-- ===== src/Parallel.antt =====
-- The runs that split a rebalance (rebalance/parallel/).
pub mod Run
pub mod Economics
pub mod Target
pub mod Fire
pub mod Judge
pub mod Landing
pub mod Rounds
pub mod Ledger
pub mod Accounts
pub mod Landed
pub mod Reach
pub mod Start
pub mod Splits
pub mod Params
pub mod Candidates
pub mod Balances
pub mod BalancesLaws
pub mod ParamsLaws
pub mod Idle
pub mod Steps
pub mod TargetLaws
pub mod Runs
pub mod RunsLaws
pub mod JudgeLaws
