-- ===== src/Proto/Mux/Tests.antt =====
-- Runs of the mux header on small inputs.
use krot.Base.{◌≡◌, refl, [], ◌∷◌, ◌++◌, Bytes, take, All, IsByte, from_le_bytes, ok, err, arith}
use krot.Proto.Mux.{data_flag, fin_with_payload, too_short, MuxHeader, to_bytes, decode}
use krot.Proto.Mux.Header.{IsWellFormed, decode-to_bytes, to_bytes-decode}

abbrev sample : MuxHeader
sample = record { flag = data_flag; stream_id = 5; payload_len = 4096 }

abbrev sample_bytes : Bytes
sample_bytes = 2 ∷ 5 ∷ 0 ∷ 0 ∷ 0 ∷ 0 ∷ 16 ∷ 0 ∷ 0 ∷ []

sample-IsWellFormed : IsWellFormed sample
sample-IsWellFormed = record {
  id_fits = omega arith;
  len_fits = omega arith;
  fin_empty = λ e. cc;
  open_nine = λ e. cc;
}

decode-sample : decode (sample_bytes ++ (7 ∷ [])) ≡ ok sample
unfolding decode from_le_bytes
decode-sample = refl

decode_fin : decode (3 ∷ 7 ∷ 0 ∷ 0 ∷ 0 ∷ 1 ∷ 0 ∷ 0 ∷ 0 ∷ []) ≡ err (fin_with_payload 1)
unfolding decode from_le_bytes
decode_fin = refl

decode_short : decode (1 ∷ 2 ∷ []) ≡ err too_short
unfolding decode from_le_bytes
decode_short = refl

decode-to_bytes_example : decode (to_bytes sample ++ (7 ∷ [])) ≡ ok sample
decode-to_bytes_example = decode-to_bytes sample (7 ∷ []) sample-IsWellFormed

abbrev sample_input : Bytes
sample_input = sample_bytes ++ (7 ∷ [])

sample_input-bytes : All IsByte sample_input
sample_input-bytes = (ground arith)

to_bytes-decode_example : (to_bytes sample ≡ take 9 sample_input) × IsWellFormed sample
to_bytes-decode_example = to_bytes-decode sample_input sample sample_input-bytes decode-sample
