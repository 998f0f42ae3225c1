-- ===== src/Proto/Stream/Header.antt =====
-- Data-stream headers and their nine bytes.
use krot.Base.{
  ◌≡◌, ◌≢◌, if◌then◌else◌, [], ◌∷◌, Bytes, length, All, IsByte, IsU64, to_le_bytes, from_le_bytes,
  ok, err, arith,
}
use krot.Proto.Stream.{control, DataHeader, stream_kind_error, to_bytes, decode, is_control}

-- A data header is read back from its bytes; one of kind Control, which carries no data, is refused.
pub decode-to_bytes_data :
    (h : DataHeader)
    → IsU64 h.tunnel_id
    → decode (to_bytes h) ≡ (if is_control h.kind then err (stream_kind_error 1) else ok h)
unfolding decode to_bytes to_le_bytes from_le_bytes
decode-to_bytes_data h v = ground arith

-- What `decode` accepts is exactly a header's own nine bytes, of a kind that carries data.
pub to_bytes-decode_data :
    (bytes : Bytes) (h : DataHeader)
    → All IsByte bytes
    → length bytes ≡ 9
    → decode bytes ≡ ok h
    → (to_bytes h ≡ bytes) × (h.kind ≢ control) × IsU64 h.tunnel_id
unfolding decode to_bytes to_le_bytes from_le_bytes
to_bytes-decode_data (b0 ∷ b1 ∷ b2 ∷ b3 ∷ b4 ∷ b5 ∷ b6 ∷ b7 ∷ b8 ∷ []) h hb n e = ground arith
to_bytes-decode_data _ h hb n e = absurd (omega arith)
