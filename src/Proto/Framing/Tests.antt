-- ===== src/Proto/Framing/Tests.antt =====
-- Runs of the framing on small inputs. The codec is that of a byte string sent as it is.
use krot.Base.{
  ℕ, zero, suc, ◌+◌, ◌≤◌, ◌≡◌, ◌≢◌, refl, some, [], ◌∷◌, ◌++◌, Bytes, length, take, drop, ok, err,
  arith,
}
use krot.Proto.Consts.{max_frame_size}
use krot.Proto.Framing.{
  Postcard, bad_varint, frame_too_large, truncated, write_varint_u32, read_varint_u32, encode_frame,
  decode_frame,
}
use krot.Proto.Framing.Codec.{
  frame, decode-encode_frame, frame_too_large_lem, decode_frame_sound, frame_prefix_refused,
}

abbrev raw : Postcard Bytes
raw = record { to_stdvec = λ v. some v; from_bytes = λ b. some b }

-- 300 takes two groups.
write_300 : write_varint_u32 300 (7 ∷ []) ≡ 7 ∷ 172 ∷ 2 ∷ []
unfolding write_varint_u32
write_300 = refl

read_300 : read_varint_u32 (172 ∷ 2 ∷ 9 ∷ []) ≡ ok (300, 2)
unfolding read_varint_u32
read_300 = refl

-- Five bytes that all go on, and a fifth byte that would drop bits.
read_endless : read_varint_u32 (255 ∷ 255 ∷ 255 ∷ 255 ∷ 255 ∷ []) ≡ err bad_varint
unfolding read_varint_u32
read_endless = refl

decode_two : decode_frame raw (2 ∷ 5 ∷ 6 ∷ 7 ∷ []) ≡ ok (5 ∷ 6 ∷ [], 3)
unfolding decode_frame read_varint_u32
decode_two = refl

decode_short : decode_frame raw (2 ∷ 5 ∷ []) ≡ err (truncated 3 2)
unfolding decode_frame read_varint_u32
decode_short = refl

abbrev pair : Bytes
pair = 5 ∷ 6 ∷ []

decode-encode_frame_example :
    (encode_frame raw pair (1 ∷ []) ≡ ok (length (frame pair), (1 ∷ []) ++ frame pair))
    × (decode_frame raw (frame pair ++ (9 ∷ [])) ≡ ok (pair, length (frame pair)))
decode-encode_frame_example =
    decode-encode_frame raw pair pair (1 ∷ []) (9 ∷ []) refl refl (omega arith)

unfoldable zeros : ℕ → Bytes
zeros zero = []
zeros (suc n) = 0 ∷ zeros n

length-zeros : (n : ℕ) → length (zeros n) ≡ n
unfolding zeros
length-zeros zero = refl
length-zeros (suc n) = omega (arith, length-zeros n)

frame_too_large_lem_example :
    (encode_frame raw (zeros 65537) []
      ≡ err (frame_too_large (length (zeros 65537)) max_frame_size))
    × (decode_frame raw (write_varint_u32 (length (zeros 65537)) [] ++ (9 ∷ []))
        ≡ err (frame_too_large (length (zeros 65537)) max_frame_size))
frame_too_large_lem_example =
    frame_too_large_lem raw (zeros 65537) (zeros 65537) [] (9 ∷ []) refl
      (omega (arith, length-zeros 65537)) (omega (arith, length-zeros 65537))

decode_frame_sound_example :
    (len prefix : ℕ) × (read_varint_u32 (2 ∷ 5 ∷ 6 ∷ 7 ∷ []) ≡ ok (len, prefix))
    × (3 ≡ prefix + len)
    × (1 ≤ prefix)
    × (prefix ≤ 5)
    × (len ≤ max_frame_size)
    × (3 ≤ 4)
    × (some (take {A = ℕ} len (drop prefix (2 ∷ 5 ∷ 6 ∷ 7 ∷ []))) ≡ some (5 ∷ 6 ∷ []))
decode_frame_sound_example =
    decode_frame_sound raw (2 ∷ 5 ∷ 6 ∷ 7 ∷ []) (5 ∷ 6 ∷ []) 3 (ground arith) decode_two

frame-pair : frame pair ≡ (2 ∷ 5 ∷ []) ++ (6 ∷ [])
unfolding write_varint_u32
frame-pair = refl

frame_prefix_refused_example : decode_frame raw (2 ∷ 5 ∷ []) ≢ ok (pair, 3)
frame_prefix_refused_example =
    frame_prefix_refused raw pair pair (2 ∷ 5 ∷ []) [] 6 (pair, 3) refl (omega arith) (ground arith)
      frame-pair
