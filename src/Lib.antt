-- ===== src/Lib.antt =====
-- seda_rust: the SEDA mainchain contract, and the parts of the SEDA node around it.
--
-- The program has seven parts. The contract (contracts/src, with the data of common/src) keeps the
-- registry of nodes and their stake, selects a committee for each epoch, and stores the batches of data
-- requests that a slot's leader posts. A node (node/src) takes events from its peers, its timers and
-- its clients into a queue and gives each to a runtime (runtime/core/src), which runs the promises of a
-- WASM program, and what they ask for, queue after queue. A peer-to-peer server (p2p/src) finds and
-- dials peers and passes their messages to the node. The consensus program (wasm/consensus/src) is
-- what a node's runtime runs for its ticks and for its peers' messages: it signs the batches of the
-- contract, collects the signatures of the committee, and posts a batch as slot leader. The
-- configuration (config/src, with the keys of crypto/src) gives a node its options and its identity.
-- The chain adapters (chains/src) sign and send the transactions of a node and wait for what becomes
-- of them.
--
-- Files:
-- Base: what all parts share: decisions, lists and unsigned machine words over the native numbers, and
-- std's HashMap as an association list whose visiting order is an argument.
-- Contract/State: the contract's state (lib.rs), its data, and Env, what one call sees of the chain: the
-- host functions, the digests and the curve points are its fields. Contract/Collections: near_sdk's
-- maps; the order that a removal leaves is a field of Env, assumed to keep the other keys once each.
-- Contract/Results: a method returns its new state or the assertion that failed, and a call that panics
-- is rolled back. Contract/Storage (storage.rs), Token (fungible_token.rs), Dao (dao.rs, consts.rs),
-- Clock (slot.rs), Verify (verify.rs), Registry and Views (node_registry.rs), Committee (committee.rs),
-- Epoch (epoch.rs), Merkle (merkle.rs), DataRequests (data_request.rs), Batches (batch.rs) and Init (new
-- of lib.rs) model the methods; a macro's body is a function of its own, named *_body. Contract/Calls:
-- histories of calls, each with its own Env. Arithmetic on u64 and u128 wraps, as in the workspace's
-- release profile, which does not turn overflow checks on. A digest is the number of its bytes.
-- Contract/Consistency, and the modules below Registry, Views, Storage, Dao, Committee, Epoch and
-- Batches, hold lemmas and theorems.
-- Peers/PeerList (p2p/src/libp2p/peer_list.rs), Discovery (discovery_status.rs) and Server (mod.rs):
-- addresses and identities are their texts, the time is an argument of each step, what the server asks
-- of libp2p is a list of actions in the order they are asked, and a panic is none.
-- Runtime/Promises, Bytes (runtime/sdk/src), Status, Host, Execute and Start (runtime/core/src): the
-- machine, the host and the encoding of texts are parameters; the state around them is any type.
-- Runtime/InMemory (storage/in_memory_adapter.rs), Context (context.rs, errors.rs), Imports (imports.rs)
-- and Sdk (runtime/sdk/src/wasm): what a program asks of its host through its linear memory. Wasmer's
-- memory is a parameter of Linear, with the laws of loading and storing, and a run ends with a value, an
-- error of the host function, or a panic of the host. The functions on the program's own memory and on
-- the shared one differ by the memory, which is an argument. Sdk/Store is the abstract view: a map for
-- each memory, given an allocator that hands out new vectors and keeps the ones alive.
-- Consensus/Program: what a run of the consensus program sees, with its memories as maps, and a panic
-- that leaves what was written. Signatures (types/batch_signature.rs), BatchTask, P2pTask and BridgeTask
-- (tasks/*.rs) and Task (main.rs, tasks/mod.rs) model its tasks. The points of bn254, serde and the
-- environment are parameters; what is assumed of them is that JSON and points are read back as they
-- were written.
-- Config/System (config/src/errors.rs, configs/macros.rs): the environment, the files as texts by their
-- paths, and results that are a value, an error or a panic. Keys (crypto/src), Node, P2P, Chains,
-- Logger and Delegate (configs/*.rs) and App (config.rs) model the options, each from a file, the
-- environment and the command line. toml, the digits of bytes, the derivation of keys and the curves
-- are parameters. Chains/Rpc, Near (chains/src/near_chain.rs) and Adapter (lib.rs, another_chain.rs, and
-- node/src/host/chain_call.rs, chain_view.rs and runtime_host.rs): the NEAR libraries are parameters
-- over a state of the chain and the clock.
-- Node/EventQueue, App and Jobs (node/src): the actor's mailbox is a list of messages. Node/Database
-- (host/db_get.rs, db_set.rs): SQLite is the rows of the table, and the order in which it scans them an
-- argument.
-- Tests, in each part: definitions run on concrete inputs.
--
-- Bounds: the loop of select_committee that looks for a free index ends after reroll_limit draws, which
-- stands for the gas of a call; search_new_peer has four rounds, one more than there are methods left to
-- skip; execute_promise_queue has as many rounds as it is given, and a run that needs more says so by an
-- outcome of its own. The loop of send_tx needs at most 32 rounds on a clock that goes on. The merkle
-- loops have as many rounds as the number of leaves needs.
--
-- Not modelled: JSON-RPC, HTTP, the command lines, the small WASM programs of the tests, log output, and
-- the gas of a call but for the bound above. libp2p, actix, wasmer, SQLite, the NEAR libraries and near_sdk
-- are only what their callers see.
mod Base
pub mod Chains
pub mod Config
pub mod Consensus
pub mod Contract
pub mod Node
pub mod Peers
pub mod Runtime
