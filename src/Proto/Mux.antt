-- ===== src/Proto/Mux.antt =====
-- crates/krot-proto/src/mux.rs: the 9-byte header of a frame of the TCP fallback transport.
pub mod Header
mod Tests
use krot.Base.{
  ℕ, ◌%◌, ◌≡◌, ◌≢◌, ◌==◌, ltb, not, ◌&&◌, if◌then◌else◌, Bool, true, false, ◌∷◌, ◌++◌, Bytes,
  length, take, drop, get_or, IsU32, to_le_bytes, from_le_bytes, Result, ok, err, ◌>>=◌,
}
use krot.Proto.Consts.{mux_header_size, control_stream_id}

pub data MuxFlag : Type 0 where
  open_flag data_flag fin_flag : MuxFlag

pub data MuxHeaderError : Type 0 where
  too_short : MuxHeaderError
  unknown_flag fin_with_payload open_bad_payload : ℕ → MuxHeaderError

unfoldable pub as_byte : MuxFlag → ℕ
as_byte open_flag = 1
as_byte data_flag = 2
as_byte fin_flag = 3

unfoldable pub try_from : ℕ → Result MuxHeaderError MuxFlag
try_from byte =
    if byte == 1
    then ok open_flag
    else if byte == 2
    then ok data_flag
    else if byte == 3
    then ok fin_flag
    else err (unknown_flag byte)

pub record MuxHeader : Type 0 where
  pub flag : MuxFlag
  pub stream_id : ℕ
  pub payload_len : ℕ

unfoldable pub to_bytes : MuxHeader → Bytes
unfolding as_byte
to_bytes h = as_byte h.flag ∷ (to_le_bytes 4 h.stream_id ++ to_le_bytes 4 h.payload_len)

-- `matches!(flag, MuxFlag::Fin)` and `matches!(flag, MuxFlag::Open)`
abbrev pub is_fin : MuxFlag → Bool
is_fin fin_flag = true
is_fin _ = false

abbrev pub is_open : MuxFlag → Bool
is_open open_flag = true
is_open _ = false

unfoldable pub decode : Bytes → Result MuxHeaderError MuxHeader
unfolding try_from
decode bytes =
    let parsed = do
      flag ← try_from (get_or bytes 0 0)
      let stream_id = from_le_bytes (take 4 (drop 1 bytes))
      let payload_len = from_le_bytes (take 4 (drop 5 bytes))
      if is_fin flag && not (payload_len == 0)
          then err (fin_with_payload payload_len)
          else if is_open flag && not (payload_len == 9)
          then err (open_bad_payload payload_len)
          else ok (record { flag = flag; stream_id = stream_id; payload_len = payload_len })
    in if ltb (length bytes) mux_header_size then err too_short else parsed

unfoldable pub is_client_opened : ℕ → Bool
is_client_opened stream_id = not (stream_id == control_stream_id) && stream_id % 2 == 0

unfoldable pub is_server_opened : ℕ → Bool
is_server_opened stream_id = not (stream_id == control_stream_id) && not (stream_id % 2 == 0)
