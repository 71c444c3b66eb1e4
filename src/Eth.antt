-- ===== src/Eth.antt =====
-- include/peer_manager_eth.h and src/peer_manager_eth.cpp: the gossip of the Ethereum-like network.
pub mod State
pub mod Packet
pub mod Gossip
pub mod RoundTrip
pub mod Draws
pub mod Keeps
pub mod Delay
pub mod Once
mod Tests
