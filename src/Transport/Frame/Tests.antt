-- ===== src/Transport/Frame/Tests.antt =====
-- Runs of the stream reader. The codec is that of a byte string sent as it is.
use krot.Base.{◌≤◌, ◌≡◌, refl, some, List, [], ◌∷◌, ◌++◌, Bytes, length, drop, All, ok, err, arith}
use krot.Proto.Framing.{Postcard, add_group, decode_frame, read_varint_u32}
use krot.Transport.Frame.{read_exact_error, read_frame, read_varint, read_exact}
use krot.Transport.Frame.Reading.{
  read_frame-decode_frame, Fits, write_each, read_each, read_each-write_each,
}

abbrev raw : Postcard Bytes
raw = record { to_stdvec = λ v. some v; from_bytes = λ b. some b }

abbrev input : Bytes
input = 2 ∷ 5 ∷ 6 ∷ 7 ∷ []

decodes : decode_frame raw input ≡ ok (5 ∷ 6 ∷ [], 3)
unfolding decode_frame read_varint_u32
decodes = refl

ends_early : read_frame raw (2 ∷ 5 ∷ []) ≡ err read_exact_error
unfolding read_frame read_varint read_exact add_group
ends_early = refl

read_frame-decode_frame_example : read_frame raw input ≡ ok (5 ∷ 6 ∷ [], drop 3 input)
read_frame-decode_frame_example =
    read_frame-decode_frame raw input (5 ∷ 6 ∷ []) 3 (ground arith) decodes

abbrev values : List Bytes
values = (5 ∷ 6 ∷ []) ∷ [] ∷ (9 ∷ []) ∷ []

fits : (value : Bytes) → length value ≤ 64 → Fits raw value
fits value h = record { payload = value; made = refl; parsed = refl; small = omega arith }

values-Fits : All (Fits raw) values
values-Fits =
    (fits (5 ∷ 6 ∷ []) (omega arith), (fits [] (omega arith), (fits (9 ∷ []) (omega arith), tt)))

read_each-write_each_example :
    (sent : Bytes) × (write_each raw (1 ∷ []) values ≡ ok ((1 ∷ []) ++ sent))
    × (read_each raw 3 (sent ++ (8 ∷ [])) ≡ ok (values, 8 ∷ []))
read_each-write_each_example = read_each-write_each raw values (1 ∷ []) (8 ∷ []) values-Fits
