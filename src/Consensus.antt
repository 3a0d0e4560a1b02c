-- ===== src/Consensus.antt =====
-- The consensus program (wasm/consensus/src), which a node's runtime runs for its ticks and for the
-- messages of its peers: it signs batches, collects signatures, and posts a batch as slot leader.
pub mod Program
pub mod Signatures
pub mod BatchTask
pub mod P2pTask
pub mod BridgeTask
pub mod Task
pub mod Tests
