-- ===== src/Server.antt =====
-- The server, crates/krot-server.
pub mod Error
pub mod Registry
pub mod PeerLookup
pub mod Rate
pub mod Text
pub mod Keys
pub mod Admin
pub mod Handshake
pub mod Sni
pub mod Peers
pub mod Http
pub mod Https
pub mod Session
