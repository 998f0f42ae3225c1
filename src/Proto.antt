-- ===== src/Proto.antt =====
-- crates/krot-proto: the wire format.
pub mod Consts
pub mod Error
pub mod Auth
pub mod Frames
pub mod Framing
pub mod Mux
pub mod Stream
