-- ===== src/Lib.antt =====
-- The distributed protocols of this repository: a practical Byzantine fault tolerant consensus
-- engine with the transport under it and the oracle node over it (project/oracle), single-
-- decree Paxos with several proposers (lab4), a group membership service with elections (lab3),
-- and a token ring with distributed snapshots (lab2). Each lab is a program of its own. In the
-- oracle, a node takes a prompt, asks a language model, and has its engine propose the answer;
-- the engine's messages go through the network manager to the transport, and what the engine
-- delivers comes back to the node, which clusters the answers and stores a record.
--
-- Base has what all parts share: Boolean tests, lists over native numbers, Go maps as
-- association lists, uint64 arithmetic that wraps around, and integers. A map is iterated in
-- the order of its list; Go leaves the order open, and the theorems hold for every list.
--
-- Pbft models project/oracle/pkg/consensus/pbft.go and its types.go. Types has the record PBFT
-- as `Pbft`, the messages and the errors; Maintenance has executeConsensus, makeCheckpoint and
-- cleanup; Handlers has ProposeValue and a handler for each message; Validate has
-- validateMessage and ProcessMessage; Engine has the run loop and the timer as a step function
-- over events. Votes, Invariant, Commits, Quorum, Execution, Marks, Once, Validation, Progress,
-- Leadership, Outsiders and Checkpoints are proofs. System puts any number of engines behind a
-- network that reorders, loses and repeats messages: Ledger is the abstract service, Network
-- the steps of the group, Flow what one engine passes on, Implements and Refinement the
-- relation of the two, and Agreement what follows; Schedule runs schedules of the group as
-- programs. It supposes that no message is forged, no broadcast fails and no state is restored.
-- The hash sha256 and encoding/json are fields of a record `Library`, which the functions take.
-- Each event is one critical section of the mutex. Numbers that are uint64 in the code wrap
-- around as there.
--
-- Paxos models lab4/src/main.go: Roles has the role strings, peer numbers and sends; Acceptor
-- has handlePrepare and handleAccept; Proposer has startPaxos, handlePrepareAck and
-- handleAcceptAck; Peers has handleMessage and a run of messages. Promises, Values, Frames,
-- Responses, Settling and Majority are proofs. Functions of strings, strconv, sort, fmt and net
-- that the code calls are fields of a record `Library`. Proposal numbers are unbounded
-- integers.
--
-- Membership models lab3/src/main.go: Types has the message kinds and a process with its global
-- variables; Views has updateMembership, joins, removals, and the REQ and NEWVIEW handlers;
-- Election has the failure detector, findNextLeaderID, handleLeaderFailure and
-- initiateReconciliation; Machine has handleConnection and the goroutines as events. What
-- answers arrive before a timeout is an argument of the event; where a loop reads the number of
-- members again before each answer, the argument has that number too. Joining, Leaders, Growth
-- and Heartbeats are proofs. View numbers are Go ints that wrap around, held as their 64 bits;
-- the numbers of peers are natural numbers.
--
-- Snapshot models lab2/src/main.go and lab2/src/snapshot.go: Types has Process, SnapshotState,
-- the ring and the packed messages, which are int32 and wrap around; Operations has sendToken,
-- processToken, initializeSnapshot, handleMarker, sendMarkers and recordMessage; Machine has
-- handleConnection and the goroutines as events, one for each wake-up. Packing, Token,
-- Completion and Recording are proofs. Snapshot numbers are integers, since a flag names them.
--
-- Network models project/oracle/pkg/network: Framing has WriteMessage and ReadMessage of
-- types.go over lists of bytes; Transport has the connections of p2p.go with Send and
-- Broadcast, and the records of health.go; Connections has the readers of the connections, Stop
-- and the control messages of p2p.go; Discovery has discovery.go, with the loop variable that
-- its pointers share. The test of the shutdown and what it guards are steps of their own, so
-- that others come between them. Sending, Closing and Aliasing are proofs. Dialling, JSON and
-- the outcome of a write are parameters.
--
-- Similarity models project/oracle/pkg/similarity/semantic.go: Floats has CosineSimilarity over
-- a record of float32 operations, which are parameters, and Scorer has ClusterResponses and
-- SelectConsensusResponse; the embeddings and sort.Slice are parameters. Covering, Partition
-- and Selection are proofs.
--
-- Oracle models the node: Llm has project/agent/llm/openai_client.go; Types, Results, Requests
-- and Machine have project/oracle/pkg/node/oracle_node.go with handleConsensusResult,
-- ProcessPrompt and handleMessages over the engine and the transport, one event for each
-- critical section; Manager has project/oracle/pkg/consensus/network.go; Recovery has
-- recovery.go of the node, Life has project/oracle/pkg/types/node.go, and Server has
-- handlePrompt of project/oracle/cmd/server/main.go. Invariant, Upkeep, Running, Prompts,
-- Callbacks, Messages, Repeats, Restarts, Verdicts and Counting are proofs. The services are
-- fields of a record `Services`.
--
-- Launch models how nodes are wired: RunNode has main of project/scripts/run_node.go, whose
-- nodes keep two transports, as a state machine over the events of Oracle, and Handler its HTTP
-- handler as a loop over the moments of a wait; Group has the set-up of main in
-- project/oracle/cmd/server/main.go. Waiting, Silence and Ready are proofs, the last with
-- Pbft.System.
--
-- Bridge models what stands between the oracle and the blockchain: Listener has
-- project/scripts/main.go, its monitor as a run of ticks, and Caller has
-- project/scripts/caller.go, its wait as a run of events. Coverage, Answers, Waiting and
-- Finding are proofs. The chain, its ABI codec, HTTP and crypto are records that a tick brings,
-- so that they may change between ticks; none stands for an error.
--
-- Storage models project/oracle/pkg/storage/pinata.go: Pinata has the client over a record of
-- what it meets outside, Results puts it in as the storage of a node of Oracle, with Retrieval
-- for what the service keeps. Config models project/config/config.go, with the package
-- variables as state, and project/oracle/pkg/config/config.go; Loading has its calls, one after
-- another. Logging models project/oracle/pkg/logging/logger.go; Filtering is a proof. Errors
-- that end a function are values of a type `Result` of Base, chained with do.
--
-- All loops are structural recursion over a list or a count, so no fuel is used. Loops that
-- wait for the network for ever are events, or lists of the outcomes of their attempts.
--
-- Not modelled: sockets, timers and goroutine scheduling below the level of events, so also the
-- locks, which the events take whole; reading of hosts files and flags, the reports and the
-- counting of messages of run_node.go, runListener, the node command, the printed similarity
-- matrix, the tickers of the health checks and of the gossip of discovery.go, the retry delays,
-- which are floating point and not used, the metadata of the stored answers, and the code that
-- is not Go (lab1, the contracts). Times are natural numbers that the events bring; what the
-- code only prints or passes on unread is left out.
mod Base
pub mod Pbft
pub mod Paxos
pub mod Membership
pub mod Snapshot
pub mod Network
pub mod Similarity
pub mod Oracle
pub mod Bridge
pub mod Launch
pub mod Config
pub mod Storage
pub mod Logging
