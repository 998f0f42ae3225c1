-- ===== src/Proto/Framing.antt =====
-- crates/krot-proto/src/framing.rs: frames behind a LEB128 length. A `Vec<u8>` or `&[u8]` is the
-- list of its bytes; `usize` has 64 bits. The `postcard` crate is the parameter `Postcard`.
mod Groups
pub mod Varint
pub mod Codec
mod Tests
use mathlib.Core.Logic.{dite}
use mathlib.Core.WellFounded.{Acc}
use native.Mathlib.Decide.{dec_le}
use krot.Base.{
  ℕ, zero, suc, ◌+◌, ◌-◌, ◌*◌, ◌/◌, ◌%◌, ◌^◌, ◌<◌, bit_and, bit_or, ◌==◌, ltb, leb, not, ◌||◌,
  if◌then◌else◌, Option, none, some, [], ◌∷◌, ◌++◌, Bytes, length, take, drop, Result, ok, err,
  ok_or, ◌>>=◌, arith,
}
use krot.Base.Order.{lt_wf}
use krot.Proto.Consts.{max_frame_size}

pub data FramingError : Type 0 where
  frame_too_large : (size max : ℕ) → FramingError
  bad_varint : FramingError
  truncated : (needed had : ℕ) → FramingError
  postcard : FramingError

-- What a type's serde implementation and `postcard` make of it. `none` is a `postcard::Error`.
pub record Postcard (A : Type 0) : Type 0 where
  pub to_stdvec : A → Option Bytes
  pub from_bytes : Bytes → Option A

-- `while v >= 0x80 { out.push(((v as u8) & 0x7F) | 0x80); v >>= 7; } out.push(v as u8);`
write_loop : (v : ℕ) → Acc ◌<◌ v → Bytes → Bytes
write_loop v (Acc.intro _ smaller) out =
    dite (dec_le 0x80 v)
      (λ h.
        write_loop (v / 2 ^ 7) (smaller (v / 2 ^ 7) (omega arith))
          (out ++ (bit_or (bit_and (v % 256) 0x7f) 0x80 ∷ [])))
      (λ _. out ++ (v % 256 ∷ []))

unfoldable pub write_varint_u32 : ℕ → Bytes → Bytes
unfolding write_loop lt_wf dec_le
write_varint_u32 v out = write_loop v (lt_wf.apply v) out

-- One round of the reader at byte `i`: the accumulator, or nothing if the shift would drop bits.
unfoldable pub add_group : ℕ → ℕ → ℕ → Option ℕ
add_group acc b i =
    let bits = bit_and b 0x7f in
    let shift = i * 7 in
    let shifted = bits * 2 ^ shift % 2 ^ 32 in
    if leb 32 shift || not (shifted / 2 ^ shift == bits) then none else some (bit_or acc shifted)

-- The loop over `input.iter().enumerate().take(5)`: `left` counts the rounds that `take` leaves.
unfoldable pub read_loop : ℕ → Bytes → ℕ → ℕ → Result FramingError (ℕ × ℕ)
read_loop zero input i acc = err bad_varint
read_loop (suc left) [] i acc = err bad_varint
read_loop (suc left) (b ∷ input) i acc = do
  acc' ← ok_or (add_group acc b i) bad_varint
  let rest = read_loop left input (i + 1) acc'
  if bit_and b 0x80 == 0 then ok (acc', i + 1) else rest

unfoldable pub read_varint_u32 : Bytes → Result FramingError (ℕ × ℕ)
unfolding read_loop add_group
read_varint_u32 input = read_loop 5 input 0 0

-- `usize::checked_add`
abbrev pub checked_add : ℕ → ℕ → Option ℕ
checked_add a b = if ltb (a + b) (2 ^ 64) then some (a + b) else none

module _ {A : Type 0} (codec : Postcard A) where
  -- The bytes written and the new `out`. An error leaves `out` as it was.
  unfoldable pub encode_frame : A → Bytes → Result FramingError (ℕ × Bytes)
  encode_frame value out = do
    payload ← ok_or (codec.to_stdvec value) postcard
    let out' = write_varint_u32 (length payload % 2 ^ 32) out ++ payload
    if ltb max_frame_size (length payload)
        then err (frame_too_large (length payload) max_frame_size)
        else ok (length out' - length out, out')

  -- The payload of `len` bytes behind a prefix of `prefix` bytes.
  unfoldable pub decode_payload : Bytes → ℕ → ℕ → Result FramingError (A × ℕ)
  decode_payload input len prefix = do
    end ← ok_or (checked_add prefix len) bad_varint
    let parsed = codec.from_bytes (take (end - prefix) (drop prefix input))
    if ltb (length input) end
        then err (truncated end (length input))
        else (ok_or parsed postcard >>= λ value. ok (value, end))

  unfoldable pub decode_frame : Bytes → Result FramingError (A × ℕ)
  unfolding decode_payload
  decode_frame input = do
    (len, prefix) ← read_varint_u32 input
    if ltb max_frame_size len
        then err (frame_too_large len max_frame_size)
        else decode_payload input len prefix
