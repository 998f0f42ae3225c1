-- ===== src/Proto/Framing/Codec.antt =====
-- Whole frames: what `encode_frame` writes and what `decode_frame` reads back.
use krot.Base.{
  ℕ, zero, suc, ◌+◌, ◌-◌, ◌<◌, ◌≤◌, ◌≡◌, ◌≢◌, refl, ap, ◌∙◌, inl, inr, some, Option-cases, [], ◌∷◌,
  ◌++◌, append-nil, append_assoc, Bytes, length, take, drop, length-append, take-append,
  drop-append, All, IsByte, IsU32, ok, err, >>=-eq-ok, arith,
}
use krot.Proto.Consts.{max_frame_size}
use krot.Proto.Framing.{
  Postcard, frame_too_large, add_group, read_loop, read_varint_u32, write_varint_u32, encode_frame,
  decode_frame, decode_payload,
}
use krot.Proto.Framing.Groups.{varint, write_varint_u32-varint, varint-length}
use krot.Proto.Framing.Varint.{read-write_varint_u32, read_varint_u32_value}

abbrev pub frame : Bytes → Bytes
frame payload = write_varint_u32 (length payload) [] ++ payload

slice-frame :
    (prefix payload rest : Bytes)
    → take
        (length prefix + length payload - length prefix)
        (drop (length prefix) ((prefix ++ payload) ++ rest))
      ≡ payload
slice-frame prefix payload rest =
    let e : length prefix + length payload - length prefix ≡ length payload = omega arith in
    rw (e, append_assoc, drop-append prefix) (take-append payload rest)

module _ {A : Type 0} (codec : Postcard A) where
  decode_payload-frame :
      (prefix payload rest : Bytes) (value : A)
      → length prefix ≤ 5
      → length payload ≤ max_frame_size
      → codec.from_bytes payload ≡ some value
      → decode_payload codec ((prefix ++ payload) ++ rest) (length payload) (length prefix)
        ≡ ok (value, length (prefix ++ payload))
  unfolding decode_payload
  decode_payload-frame prefix payload rest value hp hl e = ground (
    arith,
    slice-frame prefix payload rest,
    length-append prefix payload,
    length-append (prefix ++ payload) rest,
  )

  decode_frame-frame :
      (value : A) (payload rest : Bytes)
      → codec.from_bytes payload ≡ some value
      → length payload ≤ max_frame_size
      → decode_frame codec (frame payload ++ rest) ≡ ok (value, length (frame payload))
  unfolding decode_frame
  decode_frame-frame value payload rest d h = ground (
    arith,
    append_assoc (write_varint_u32 (length payload) []) payload rest,
    read-write_varint_u32 (length payload) (payload ++ rest) (omega arith),
    write_varint_u32-varint (length payload) [] (omega arith),
    varint-length 4 (length payload),
    decode_payload-frame (write_varint_u32 (length payload) []) payload rest value,
  )

  -- A payload of at most MAX_FRAME_SIZE bytes is appended behind its length, and the frame decodes
  -- to the value and its own size, whatever follows.
  pub decode-encode_frame :
      (value : A) (payload out rest : Bytes)
      → codec.to_stdvec value ≡ some payload
      → codec.from_bytes payload ≡ some value
      → length payload ≤ max_frame_size
      → (encode_frame codec value out ≡ ok (length (frame payload), out ++ frame payload))
        × (decode_frame codec (frame payload ++ rest) ≡ ok (value, length (frame payload)))
  unfolding encode_frame
  decode-encode_frame value payload out rest e d h = (
    ground (
      arith,
      write_varint_u32-varint (length payload) out (omega arith),
      write_varint_u32-varint (length payload) [] (omega arith),
      append_assoc out (varint 4 (length payload)) payload,
      length-append out (frame payload),
    ),
    decode_frame-frame value payload rest d h,
  )

  -- Past the limit both ends refuse: the writer on the payload, the reader on the length alone.
  pub frame_too_large_lem :
      (value : A) (payload out rest : Bytes)
      → codec.to_stdvec value ≡ some payload
      → max_frame_size < length payload
      → IsU32 (length payload)
      → (encode_frame codec value out ≡ err (frame_too_large (length payload) max_frame_size))
        × (decode_frame codec (write_varint_u32 (length payload) [] ++ rest)
            ≡ err (frame_too_large (length payload) max_frame_size))
  unfolding encode_frame decode_frame
  frame_too_large_lem value payload out rest e big small =
      (ground arith, ground (arith, read-write_varint_u32 (length payload) rest small))

  decode_payload_sound :
      (input : Bytes) (len prefix : ℕ) (value : A) (n : ℕ)
      → decode_payload codec input len prefix ≡ ok (value, n)
      → (n ≡ prefix + len)
        × (n ≤ length input)
        × (codec.from_bytes (take len (drop prefix input)) ≡ some value)
  unfolding decode_payload
  decode_payload_sound input len prefix value n e =
      let same : take (prefix + len - prefix) (drop prefix input) ≡ take len (drop prefix input) =
        ap (λ (k : ℕ). take k (drop prefix input)) (omega arith) in
      ground (arith, same)

  -- An accepted frame lies inside the input, within the size limit, and its value is what
  -- `postcard` makes of exactly the bytes between the prefix and the end.
  pub decode_frame_sound :
      (input : Bytes) (value : A) (n : ℕ)
      → All IsByte input
      → decode_frame codec input ≡ ok (value, n)
      → (len prefix : ℕ) × (read_varint_u32 input ≡ ok (len, prefix))
        × (n ≡ prefix + len)
        × (1 ≤ prefix)
        × (prefix ≤ 5)
        × (len ≤ max_frame_size)
        × (n ≤ length input)
        × (codec.from_bytes (take len (drop prefix input)) ≡ some value)
  unfolding decode_frame decode_payload
  decode_frame_sound input value n hb e =
      let ((len, prefix), read, rest) = >>=-eq-ok (read_varint_u32 input) _ e in
      let small : len ≤ max_frame_size = ground arith in
      let parsed : decode_payload codec input len prefix ≡ ok (value, n) = ground arith in
      let (end, inside, made) = decode_payload_sound input len prefix value n parsed in
      let (_, _, lo, hi, _) = read_varint_u32_value input len prefix hb read in
      (len, prefix, read, end, lo, hi, small, inside, made)

read_loop-append :
    (left : ℕ) (input more : Bytes) (i acc v n : ℕ)
    → read_loop left input i acc ≡ ok (v, n)
    → read_loop left (input ++ more) i acc ≡ ok (v, n)
unfolding read_loop
read_loop-append zero input more i acc v n e = cc
read_loop-append (suc left) [] more i acc v n e = cc
read_loop-append (suc left) (b ∷ input) more i acc v n e = elim (Option-cases (add_group acc b i)) [
  | inl dropped ↦ ground (arith, dropped)
  | inr (a, kept) ↦ ground (arith, kept, read_loop-append left input more (i + 1) a v n)
]

-- Bytes of a slice that ends inside the input do not change when more input arrives.
take-drop-append :
    (n m : ℕ) (input more : Bytes)
    → m + n ≤ length input
    → take n (drop m (input ++ more)) ≡ take n (drop m input)
take-drop-append zero m input more h = refl
take-drop-append (suc n) zero [] more h = absurd (omega arith)
take-drop-append (suc n) zero (b ∷ input) more h =
    ap (◌∷◌ b) (take-drop-append n zero input more (omega arith))
take-drop-append (suc n) (suc m) [] more h = absurd (omega arith)
take-drop-append (suc n) (suc m) (b ∷ input) more h =
    take-drop-append (suc n) m input more (omega arith)

module _ {A : Type 0} (codec : Postcard A) where
  -- A frame that decodes still decodes, to the same, when more input arrives.
  decode_frame-append :
      (input more : Bytes) (value : A) (n : ℕ)
      → All IsByte input
      → decode_frame codec input ≡ ok (value, n)
      → decode_frame codec (input ++ more) ≡ ok (value, n)
  unfolding decode_frame decode_payload read_varint_u32
  decode_frame-append input more value n hb e =
      let (len, prefix, read, end, _, _, small, inside, made) =
        decode_frame_sound codec input value n hb e in
      let same : take (prefix + len - prefix) (drop prefix (input ++ more))
          ≡ take len (drop prefix input) =
        ap (λ (k : ℕ). take k (drop prefix (input ++ more))) (omega arith)
        ∙ take-drop-append len prefix input more (omega arith) in
      ground (
        arith,
        read_loop-append 5 input more 0 0 len prefix read,
        same,
        made,
        length-append input more,
      )

  -- No proper prefix of a frame decodes: a reader that has part of it is told so.
  pub frame_prefix_refused :
      (value : A) (payload front back : Bytes) (x : ℕ) (decoded : A × ℕ)
      → codec.from_bytes payload ≡ some value
      → length payload ≤ max_frame_size
      → All IsByte front
      → frame payload ≡ front ++ (x ∷ back)
      → decode_frame codec front ≢ ok decoded
  frame_prefix_refused value payload front back x (other, n) d h hb split e =
      let whole : decode_frame codec (front ++ (x ∷ back))
          ≡ ok (value, length (front ++ (x ∷ back))) =
        rw (append-nil, split) at (decode_frame-frame codec value payload [] d h) in
      let longer = decode_frame-append front (x ∷ back) other n hb e in
      let (len, prefix, _, _, _, _, _, inside, _) = decode_frame_sound codec front other n hb e in
      ground (arith, whole, longer, inside, ap length split, length-append front (x ∷ back))
