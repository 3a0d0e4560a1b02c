-- ===== src/Contract.antt =====
-- The mainchain contract (contracts/src).
pub mod Collections
pub mod Calls
pub mod Consistency
pub mod State
pub mod Results
pub mod Storage
pub mod Token
pub mod Dao
pub mod Clock
pub mod Verify
pub mod Registry
pub mod Committee
pub mod Epoch
pub mod Merkle
pub mod DataRequests
pub mod Batches
pub mod Init
pub mod Views
pub mod Tests
