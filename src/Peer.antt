-- ===== src/Peer.antt =====
-- include/peer_manager.h and src/peer_manager.cpp, the broadcast over the rings.
pub mod State
pub mod Ring
pub mod Tree
pub mod Targets
pub mod Reach
pub mod Logging
pub mod Regions
pub mod Within
pub mod Delay
pub mod Receive
pub mod Handlers
mod Tests
pub mod Election
pub mod Elected
mod RingTests
