-- ===== src/Transport/Frame.antt =====
-- crates/krot-transport/src/frame.rs: frames over a stream. A stream that is read is the bytes that
-- arrive before its end; one that is written is the bytes written so far, and takes them all.
pub mod Reading
mod Tests
use krot.Base.{
  ℕ, zero, suc, ◌+◌, ◌*◌, ◌^◌, ◌==◌, ltb, leb, bit_and, if◌then◌else◌, Option, none, some, [], ◌∷◌,
  ◌++◌, Bytes, length, take, drop, Result, ok, err, ok_or, ◌>>=◌,
}
use krot.Proto.Consts.{max_frame_size}
use krot.Proto.Framing.{
  FramingError, frame_too_large, bad_varint, postcard, Postcard, add_group, encode_frame,
}

pub data TransportError : Type 0 where
  framing : FramingError → TransportError
  read_exact_error unexpected_eof : TransportError

-- `stream.read_exact` of `n` bytes: the bytes, and the stream behind them.
unfoldable pub read_exact : ℕ → Bytes → Result TransportError (Bytes × Bytes)
read_exact n stream =
    if leb n (length stream) then ok (take n stream, drop n stream) else err read_exact_error

-- `for i in 0..VARINT_MAX_BYTES`, where `left` rounds are left at byte `i`. A byte that is read is
-- off the stream.
unfoldable pub read_varint_loop : ℕ → Bytes → ℕ → ℕ → Result TransportError (ℕ × Bytes)
read_varint_loop zero stream i acc = err (framing bad_varint)
read_varint_loop (suc left) [] i acc = err read_exact_error
read_varint_loop (suc left) (b ∷ stream) i acc = do
  acc' ← ok_or (add_group acc b i) (framing bad_varint)
  let rest = read_varint_loop left stream (i + 1) acc'
  if bit_and b 0x80 == 0 then ok (acc', stream) else rest

unfoldable pub read_varint : Bytes → Result TransportError (ℕ × Bytes)
unfolding read_varint_loop
read_varint stream = read_varint_loop 5 stream 0 0

abbrev pub map_framing {ℓ} : {A : Type ℓ} → Result FramingError A → Result TransportError A
map_framing (ok a) = ok a
map_framing (err e) = err (framing e)

module _ {A : Type 0} (codec : Postcard A) where
  unfoldable pub read_payload : ℕ → Bytes → Result TransportError (A × Bytes)
  unfolding read_exact
  read_payload len stream = do
    (buf, rest) ← read_exact len stream
    value ← ok_or (codec.from_bytes buf) (framing postcard)
    ok (value, rest)

  unfoldable pub read_frame : Bytes → Result TransportError (A × Bytes)
  unfolding read_varint read_payload
  read_frame stream = do
    (len, stream') ← read_varint stream
    if ltb max_frame_size len
        then err (framing (frame_too_large len max_frame_size))
        else read_payload len stream'

  unfoldable pub write_frame : Bytes → A → Result TransportError Bytes
  write_frame stream value = do
    (n, buf) ← map_framing (encode_frame codec value [])
    ok (stream ++ buf)
