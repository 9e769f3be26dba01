-- ===== src/Lib.antt =====
-- CLN-circular: rebalancing of a lightning node's channels by circular payments.
--
-- The plugin keeps a graph of the network with beliefs about the liquidity of its channels (graph/),
-- searches it for circular routes, pays over them and learns from the outcome (rebalance/), and
-- splits a large rebalance into runs of many splits (rebalance/parallel/), whose candidates the node
-- remembers (node/). The development follows these parts.
--
-- Common: the helpers. Strings are lists of bytes (Common/Strings), a Go map is an association list
-- (Common/Maps), uint64 is a native number below 2 ^ 64 with its wrap-around written out
-- (Common/Words), int64 an integer that int64 wraps (Common/Int), and float64 an interface that the
-- definitions over it take as a parameter (Common/Float).
--
-- Graph: graph/. Graph/Fee is the fee arithmetic of graph/channel.go, graph/pathfinder.go and
-- graph/graph.go; Graph/Channel one direction of a channel; Graph/State the Graph and its accessors;
-- Graph/Belief what payments and time do to the beliefs (LearnUpperBound, LearnLowerBound,
-- LearnPayment, MarkUnusable, RefreshLiquidity, ApplyBeliefs, DecayLiquidity); Graph/Route routes
-- and their prices; Graph/Chance a channel's chance and cost; Graph/Search the backward search of
-- Graph.search, whose closures and loop bodies are functions of their own; Graph/Circular the
-- searches on top of it; and Graph/Topology snapshots and gossip (RefreshChannels, SyncChannels,
-- ApplyChannelUpdate, DeleteChannel, PruneChannels, MarkDearChannels). Their laws stand beside them:
-- Graph/FeeLaws, Graph/ChannelId, Graph/BeliefLaws, Graph/AvoidLaws, Graph/Fading, Graph/SearchLaws,
-- Graph/SearchSound, Graph/SearchEnds, Graph/SearchAnswers, Graph/CircularLaws, Graph/Updates and
-- Graph/TopologyLaws.
--
-- Graph/Scores is what nodes are remembered to have failed (graph/nodes.go), Graph/RouteLaws what a
-- route over given channels carries.
--
-- Rebalance: rebalance/, one rebalance from an out channel to an in channel. Rebalance/Result is its
-- result, Rebalance/Errors its errors and whom they blame (util/error.go, side.go), Rebalance/Split
-- its settings, state and surroundings; Rebalance/Checks the checks of params.go, Rebalance/Routing
-- getRoute, knownRoute and shrink, Rebalance/Codes and Rebalance/Failure what failures and successes
-- teach (failure.go), Rebalance/Attempt tryRoute and runAttempt, and Rebalance/Run the loop of Run.
-- A World is what an attempt reads of the node at its moment: our peers, the defaults, whether the
-- plugin is stopped or the run halted, how lightningd answers, and what else happens to the graph
-- while the payment is under way. Rebalance/Prices is about what routes cost; Rebalance/Tally,
-- Rebalance/AttemptLaws, Rebalance/Turns and Rebalance/RunLaws follow a payment, an attempt, a turn
-- and a run; Rebalance/Answers is about its searches; Rebalance/Blame and Rebalance/Shortage are
-- about failures.
--
-- Node: node/. Node/Candidates, Node/CandidatesLaws, Node/Ranking and Node/RankingLaws are
-- node/candidates.go, Node/Peers with Node/Peers/Refresh and Node/PeersLaws node/peers.go and
-- node/cron.go, Node/Gossip with Node/Gossip/BigSize, Node/Gossip/Fees and Node/Gossip/Store
-- node/gossip.go, Node/Payment and Node/PaymentLaws node/payment.go and node/invoice.go, and
-- Node/Earned node/earned.go.
--
-- Parallel: rebalance/parallel/. Parallel/Run is the state of a run, AbstractRebalance, in which the
-- goroutines in flight are a list, and Surroundings what it reads of the node and of pull.go and
-- push.go; Parallel/Fire is FireCandidates; Parallel/Judge and Parallel/Landing the body of
-- waitForRound's loop on a split's result; Parallel/Target the target's limit; Parallel/Rounds the
-- rounds of slow mode; Parallel/Runs what circular-results lists. Parallel/Ledger,
-- Parallel/Accounts, Parallel/Landed, Parallel/Reach and Parallel/Start follow the amounts and the
-- fee budget through every event of a run, a step relation; Parallel/Economics is what a split may
-- pay with a fee ratio (economics.go) and Parallel/Splits the rebalance that a split is (newSplit),
-- which joins Rebalance/Run to the run; Parallel/Params the parameters (params.go) and
-- Parallel/Balances which channels pull.go and push.go use, Parallel/Candidates the candidates found
-- for a run (FindCandidates), with Parallel/ParamsLaws and Parallel/BalancesLaws; Parallel/Idle,
-- Parallel/Steps, Parallel/TargetLaws, Parallel/JudgeLaws and Parallel/RunsLaws hold the laws of
-- single operations. Tests holds sample networks and runs.
--
-- Bounds and fuel. The search's loop runs on fuel, a label for each unit, since container/heap is
-- the parameter Heap with the laws of a priority queue (Graph/SearchEnds is about how much it
-- takes). A rebalance gives its searches a fuel that is a function of the graph of the moment;
-- Rebalance/Answers computes one from the graph's widest node and the most hops. A search without
-- enough of it, or a panic in it, hangs the rebalance (the result stalled), and is never an error of
-- it. The loop of FireCandidates runs on the length of the queue and one more, since each split
-- takes a candidate out of it (Parallel/Idle). The loop of Rebalance/Run runs on its attempts and
-- two turns more, one for the route that worked before and one to end (Rebalance/RunLaws); that of
-- Node/Gossip on the length of the file, since a record has twelve bytes at least
-- (Node/Gossip/Store). Every other loop is structural. Locks are not modelled: a method under its
-- locks is one step.
--
-- Not modelled: the calls of lightningd (their answers are inputs), files, timers, logs and message
-- texts (a reason to stop is a constructor with its numbers, an error what the code tests of it),
-- JSON, the quotes, the JSON-RPC methods, and the database but for the keys of its entries. A run
-- reads what pull.go and push.go say of a channel through Surroundings.
pub mod Common
pub mod Graph
pub mod Node
pub mod Rebalance
pub mod Parallel
pub mod Tests
