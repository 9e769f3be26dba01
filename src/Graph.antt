-- ===== src/Graph.antt =====
-- The package `graph`: the network graph, its fees, what it believes of channels, and the search.
pub mod Fee
pub mod FeeLaws
pub mod Channel
pub mod ChannelId
pub mod State
pub mod Belief
pub mod BeliefLaws
pub mod Fading
pub mod Route
pub mod Scores
pub mod Chance
pub mod Search
pub mod SearchLaws
pub mod SearchSound
pub mod Circular
pub mod CircularLaws
pub mod RouteLaws
pub mod SearchEnds
pub mod SearchAnswers
pub mod AvoidLaws
pub mod Topology
pub mod TopologyLaws
pub mod Updates
