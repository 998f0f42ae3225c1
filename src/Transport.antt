-- ===== src/Transport.antt =====
-- The transport, crates/krot-transport.
pub mod Frame
pub mod TcpMux
