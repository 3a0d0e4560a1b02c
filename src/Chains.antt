-- ===== src/Chains.antt =====
-- chains/src: signed transactions for the chains, and the answers to them.
pub mod Rpc
pub mod Near
pub mod Adapter
pub mod Tests
