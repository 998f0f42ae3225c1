-- ===== src/Transport/Frame/Reading.antt =====
-- The stream reader and the slice reader agree, and frames come out in the order they went in.
use krot.Base.{
  ℕ, zero, suc, ◌+◌, ◌-◌, ◌<◌, ◌≤◌, ◌≡◌, refl, sym, ap, ◌∙◌, inl, inr, ◌==◌, bit_and, some,
  Option-cases, Bool-cases, List, [], ◌∷◌, ◌++◌, append-nil, append_assoc, Bytes, length, drop, All,
  IsByte, Result, ok, ◌>>=◌, arith, length-append, take-append, drop-append,
}
use krot.Proto.Consts.{max_frame_size}
use krot.Proto.Framing.{
  Postcard, add_group, read_loop, read_varint_u32, decode_frame, write_varint_u32,
}
use krot.Proto.Framing.Codec.{frame, decode-encode_frame, decode_frame_sound}
use krot.Proto.Framing.Varint.{read-write_varint_u32}
use krot.Transport.Frame.{
  TransportError, read_exact, read_varint_loop, read_varint, read_payload, read_frame, write_frame,
}

drop-suc : (k j b : ℕ) (input : Bytes) → k ≡ suc j → drop k (b ∷ input) ≡ drop j input
drop-suc k j b input e = rw e refl

drop-nil : (n : ℕ) → drop {A = ℕ} n [] ≡ []
drop-nil zero = refl
drop-nil (suc n) = refl

pub drop-drop : (m n : ℕ) (xs : Bytes) → drop n (drop m xs) ≡ drop (m + n) xs
drop-drop zero n xs = ap (λ (k : ℕ). drop k xs) (omega arith)
drop-drop (suc m) n [] = drop-nil n ∙ sym (drop-nil (suc m + n))
drop-drop (suc m) n (x ∷ xs) =
    drop-drop m n xs ∙ sym (drop-suc (suc m + n) (m + n) x xs (omega arith))

pub length-drop : (m : ℕ) (xs : Bytes) → m ≤ length xs → m + length (drop m xs) ≡ length xs
length-drop zero xs h = omega arith
length-drop (suc m) [] h = absurd (omega arith)
length-drop (suc m) (x ∷ xs) h = omega (arith, length-drop m xs (omega arith))

-- The number of the slice reader, and the stream behind the bytes that it counts.
read_varint_loop_lem :
    (left : ℕ) (input : Bytes) (i acc v n : ℕ)
    → read_loop left input i acc ≡ ok (v, n)
    → (read_varint_loop left input i acc ≡ ok (v, drop (n - i) input)) × (i < n)
unfolding read_varint_loop read_loop
read_varint_loop_lem zero input i acc v n e = cc
read_varint_loop_lem (suc left) [] i acc v n e = cc
read_varint_loop_lem (suc left) (b ∷ input) i acc v n e = elim (Option-cases (add_group acc b i)) [
  | inl dropped ↦ ground (arith, dropped)
  | inr (a, kept) ↦ elim (Bool-cases (bit_and b 0x80 == 0)) [
    | inl last ↦ ground (arith, kept, last, drop-suc (n - i) 0 b input)
    | inr more ↦ ground (
      arith,
      kept,
      more,
      drop-suc (n - i) (n - (i + 1)) b input,
      read_varint_loop_lem left input (i + 1) a v n,
    )
  ]
]

module _ {A : Type 0} (codec : Postcard A) where
  -- What the slice reader decodes, the stream reader returns, and the stream goes on behind the
  -- frame.
  pub read_frame-decode_frame :
      (input : Bytes) (value : A) (n : ℕ)
      → All IsByte input
      → decode_frame codec input ≡ ok (value, n)
      → read_frame codec input ≡ ok (value, drop n input)
  unfolding read_frame read_varint read_payload read_exact read_varint_u32
  read_frame-decode_frame input value n hb e =
      let (len, prefix, read, end, _, _, small, inside, made) =
        decode_frame_sound codec input value n hb e in
      let (streamed, _) = read_varint_loop_lem 5 input 0 0 len prefix read in
      ground
        (arith, streamed, drop-drop prefix len input, length-drop prefix input (omega arith), made)

  -- A value that the codec round-trips within the size limit.
  pub record Fits (value : A) : Type 0 where
    pub payload : Bytes
    pub made : codec.to_stdvec value ≡ some payload
    pub parsed : codec.from_bytes payload ≡ some value
    pub small : length payload ≤ max_frame_size

  unfoldable pub write_each : Bytes → List A → Result TransportError Bytes
  write_each stream [] = ok stream
  write_each stream (value ∷ values) = do
    stream' ← write_frame codec stream value
    write_each stream' values

  unfoldable pub read_each : ℕ → Bytes → Result TransportError (List A × Bytes)
  read_each zero stream = ok ([], stream)
  read_each (suc n) stream = do
    (value, stream') ← read_frame codec stream
    (values, rest) ← read_each n stream'
    ok (value ∷ values, rest)

  write_frame-frame :
      (stream : Bytes) (value : A) (f : Fits value)
      → write_frame codec stream value ≡ ok (stream ++ frame f.payload)
  unfolding write_frame
  write_frame-frame stream value f =
      let (encoded, _) = decode-encode_frame codec value f.payload [] [] f.made f.parsed f.small in
      rw encoded refl

  read_frame-frame :
      (rest : Bytes) (value : A) (f : Fits value)
      → read_frame codec (frame f.payload ++ rest) ≡ ok (value, rest)
  unfolding read_frame read_varint read_payload read_exact read_varint_u32
  read_frame-frame rest value f =
      let prefix = write_varint_u32 (length f.payload) [] in
      let small = f.small in
      let read = read-write_varint_u32 (length f.payload) (f.payload ++ rest) (omega arith) in
      let (streamed, _) =
        read_varint_loop_lem 5 (prefix ++ (f.payload ++ rest)) 0 0 (length f.payload)
          (length prefix) read in
      ground (
        arith,
        append_assoc prefix f.payload rest,
        streamed,
        drop-append prefix (f.payload ++ rest),
        length-append f.payload rest,
        take-append f.payload rest,
        drop-append f.payload rest,
        f.parsed,
      )

  -- Frames written one after the other are read back in that order, and the stream goes on with
  -- what follows them.
  pub read_each-write_each :
      (values : List A) (stream rest : Bytes)
      → All Fits values
      → (sent : Bytes) × (write_each stream values ≡ ok (stream ++ sent))
        × (read_each (length values) (sent ++ rest) ≡ ok (values, rest))
  unfolding write_each read_each
  read_each-write_each [] stream rest fits = ([], ap ok (sym (append-nil stream)), refl)
  read_each-write_each (value ∷ values) stream rest fits =
      let f = fits.0 in
      let (sent, wrote, received) =
        read_each-write_each values (stream ++ frame f.payload) rest fits.1 in
      (
        frame f.payload ++ sent,
        rw (write_frame-frame stream value f)
            (wrote ∙ ap ok (append_assoc stream (frame f.payload) sent)),
        rw
            (
              append_assoc (frame f.payload) sent rest,
              read_frame-frame (sent ++ rest) value f,
              received,
            )
            refl,
      )
