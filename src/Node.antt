-- ===== src/Node.antt =====
-- The node (node/src): the queue of events and the jobs made of them.
pub mod Database
pub mod EventQueue
pub mod App
pub mod Jobs
pub mod Delivery
pub mod Tests
