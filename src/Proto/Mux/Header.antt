-- ===== src/Proto/Mux/Header.antt =====
-- Headers and their nine bytes.
use krot.Base.{
  ◌≡◌, ◌∷◌, ◌++◌, Bytes, take, All, IsByte, IsU32, to_le_bytes, from_le_bytes, ok, arith,
}
use krot.Proto.Mux.{open_flag, fin_flag, MuxHeader, to_bytes, decode}

-- FIN is empty and OPEN carries nine bytes; both numbers are u32.
pub record IsWellFormed (h : MuxHeader) : Type 0 where
  pub id_fits : IsU32 h.stream_id
  pub len_fits : IsU32 h.payload_len
  pub fin_empty : h.flag ≡ fin_flag → h.payload_len ≡ 0
  pub open_nine : h.flag ≡ open_flag → h.payload_len ≡ 9

-- A well-formed header is read back from its bytes, whatever follows.
pub decode-to_bytes :
    (h : MuxHeader) (rest : Bytes) → IsWellFormed h → decode (to_bytes h ++ rest) ≡ ok h
unfolding decode to_bytes to_le_bytes from_le_bytes
decode-to_bytes h rest v = ground arith

-- What `decode` accepts of a list of bytes is a well-formed header, and the first nine bytes are its
-- own.
pub to_bytes-decode :
    (bytes : Bytes) (h : MuxHeader)
    → All IsByte bytes
    → decode bytes ≡ ok h
    → (to_bytes h ≡ take 9 bytes) × IsWellFormed h
unfolding decode to_bytes to_le_bytes from_le_bytes
to_bytes-decode (b0 ∷ b1 ∷ b2 ∷ b3 ∷ b4 ∷ b5 ∷ b6 ∷ b7 ∷ b8 ∷ rest) h hb e = ground arith
to_bytes-decode _ h hb e = ground arith
