-- ===== src/Proto/Stream.antt =====
-- crates/krot-proto/src/stream.rs: the first byte of every stream, and the 9-byte header of a
-- Data stream.
pub mod Header
mod Tests
use krot.Base.{
  ℕ, ◌==◌, if◌then◌else◌, Bool, true, false, ◌∷◌, Bytes, take, drop, get_or, to_le_bytes,
  from_le_bytes, Result, ok, err, ◌>>=◌,
}

pub data StreamKind : Type 0 where
  control data_http data_tcp : StreamKind

pub data StreamKindError : Type 0 where
  stream_kind_error : ℕ → StreamKindError

unfoldable pub as_byte : StreamKind → ℕ
as_byte control = 1
as_byte data_http = 2
as_byte data_tcp = 3

unfoldable pub try_from : ℕ → Result StreamKindError StreamKind
try_from v =
    if v == 1
    then ok control
    else if v == 2
    then ok data_http
    else if v == 3
    then ok data_tcp
    else err (stream_kind_error v)

pub record DataHeader : Type 0 where
  pub kind : StreamKind
  pub tunnel_id : ℕ

unfoldable pub to_bytes : DataHeader → Bytes
unfolding as_byte
to_bytes h = as_byte h.kind ∷ to_le_bytes 8 h.tunnel_id

abbrev pub is_control : StreamKind → Bool
is_control control = true
is_control _ = false

-- The argument is an array of nine bytes.
unfoldable pub decode : Bytes → Result StreamKindError DataHeader
unfolding try_from
decode bytes = do
  kind ← try_from (get_or bytes 0 0)
  if is_control kind
      then err (stream_kind_error (get_or bytes 0 0))
      else ok (record { kind = kind; tunnel_id = from_le_bytes (take 8 (drop 1 bytes)) })
