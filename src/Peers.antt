-- ===== src/Peers.antt =====
-- The peer-to-peer layer (p2p/src): who is known, who is connected, and whom to dial next.
pub mod PeerList
pub mod Discovery
pub mod Server
pub mod Tests
