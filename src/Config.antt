-- ===== src/Config.antt =====
-- config/src and crypto/src: a node's options, from a file, the environment and the command line, and
-- its keys.
pub mod System
pub mod Keys
pub mod Node
pub mod P2P
pub mod Chains
pub mod Logger
pub mod Delegate
pub mod App
pub mod Tests
