-- ===== src/Proto/Stream/Tests.antt =====
-- Runs of the Data-stream header on small inputs.
use krot.Base.{◌≡◌, ◌≢◌, refl, [], ◌∷◌, Bytes, IsU64, from_le_bytes, ok, arith}
use krot.Proto.Stream.{control, data_http, DataHeader, to_bytes, decode}
use krot.Proto.Stream.Header.{to_bytes-decode_data}

abbrev sample : DataHeader
sample = record { kind = data_http; tunnel_id = 258 }

abbrev sample_bytes : Bytes
sample_bytes = 2 ∷ 2 ∷ 1 ∷ 0 ∷ 0 ∷ 0 ∷ 0 ∷ 0 ∷ 0 ∷ []

decode-sample : decode sample_bytes ≡ ok sample
unfolding decode from_le_bytes
decode-sample = refl

to_bytes-decode_data_example :
    (to_bytes sample ≡ sample_bytes) × (sample.kind ≢ control) × IsU64 sample.tunnel_id
to_bytes-decode_data_example =
    to_bytes-decode_data sample_bytes sample (ground arith) refl decode-sample
