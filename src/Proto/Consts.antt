-- ===== src/Proto/Consts.antt =====
-- crates/krot-proto/src/consts.rs: the sizes and numbers of the protocol. Times are in
-- milliseconds.
use krot.Base.{ℕ, ◌*◌}

abbrev pub max_frame_size : ℕ
max_frame_size = 64 * 1024

abbrev pub data_header_size : ℕ
data_header_size = 9

-- crates/krot-proto/src/mux.rs
abbrev pub mux_header_size : ℕ
mux_header_size = 9

abbrev pub control_stream_id : ℕ
control_stream_id = 0

-- Ten minutes.
abbrev pub admin_token_ttl : ℕ
admin_token_ttl = 10 * 60 * 1000
