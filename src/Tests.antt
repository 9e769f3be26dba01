-- ===== src/Tests.antt =====
-- Concrete networks and runs, and what the theorems say of them.
mod Samples
mod Queue
mod Fees
mod Beliefs
mod Routes
mod Runs
mod Rebalances
mod Failures
mod Gossip
mod Services
mod Usage
mod Ranks
