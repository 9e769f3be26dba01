-- ===== src/Node.antt =====
-- The node's services (node/): our peers, and how each of our channels did as a candidate.
pub mod Peers
pub mod PeersLaws
pub mod Gossip
pub mod Earned
pub mod Payment
pub mod PaymentLaws
pub mod Candidates
pub mod CandidatesLaws
pub mod Ranking
pub mod RankingLaws
