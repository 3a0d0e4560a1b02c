-- ===== src/Runtime.antt =====
-- The runtime (runtime/core/src and the values of runtime/sdk/src that it works on): promise queues
-- run by a WASM virtual machine and a host.
pub mod Promises
pub mod Status
pub mod Bytes
pub mod Host
pub mod InMemory
pub mod Context
pub mod Linear
pub mod Imports
pub mod Sdk
pub mod Execute
pub mod Start
pub mod Tests
