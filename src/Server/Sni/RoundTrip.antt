-- ===== src/Server/Sni/RoundTrip.antt =====
-- A whole ClientHello, from its fields to what `peek_sni` returns.
use krot.Base.{
  ℕ, ◌+◌, ◌*◌, ◌/◌, ◌%◌, ◌≤◌, ◌<◌, ◌≡◌, refl, Option, none, some, [], ◌∷◌, ◌++◌, Bytes, length, All,
  ok, length-append, take-append, arith,
}
use krot.Server.Sni.{
  Alpn, Reader, new_reader, skip, advance, skip_to_extensions, parse_client_hello, read_at_least,
  peek_sni, max_hello,
}
use krot.Server.Sni.Reading.{
  IsAt, new_reader-IsAt, advance-IsAt, take_u8-IsAt, take_u24-IsAt, skip-IsAt, take_reader-IsAt,
}
use krot.Server.Sni.Hello.{
  be16, be24, block8, block16, write_extensions, take_u16-be16, skip_two, skip_one,
}
use krot.Server.Sni.Extensions.{
  ClientHello, extensions_of, write_body, write_handshake, write_record, IsReadable, lowered,
  last_host, last_protocols, read_extensions-last, extensions_loop-write_extensions,
}

-- The bytes of the extensions, behind their length.
abbrev extension_block : ClientHello → Bytes
extension_block h = block16 (write_extensions (extensions_of h)) []

-- A block behind a length that has been read is skipped.
skip_block :
    (r : Reader) (bytes rest : Bytes)
    → IsAt r (bytes ++ rest)
    → (skip (length bytes) r ≡ ok (advance (length bytes) r)) × IsAt (advance (length bytes) r) rest
skip_block r bytes rest h =
    (skip-IsAt (length bytes) r bytes rest refl h, advance-IsAt r bytes rest h)

skip_to_extensions-IsAt :
    (lower_utf8 : Bytes → Option Bytes) (h : ClientHello) (r : Reader)
    → length h.random ≡ 32
    → IsAt r (write_body h)
    → (r' : Reader) × (skip_to_extensions lower_utf8 r ≡ ok r') × IsAt r' (extension_block h)
unfolding skip_to_extensions
skip_to_extensions-IsAt lower_utf8 h r size start =
    let methods = block8 h.compression (extension_block h) in
    let suites = block16 h.cipher_suites methods in
    let session = block8 h.session_id suites in
    let (skip₁, at_random) = skip_block r (h.major ∷ h.minor ∷ []) (h.random ++ session) start in
    let (skip₂, at_session) = skip_block (advance 2 r) h.random session at_random in
    let r₂ = advance (length h.random) (advance 2 r) in
    let (skip₃, at_suites) =
      skip_block (advance 1 r₂) h.session_id suites
        (skip_one r₂ (length h.session_id) (h.session_id ++ suites) at_session) in
    let r₃ = advance (length h.session_id) (advance 1 r₂) in
    let n = length h.cipher_suites in
    let (skip₄, at_methods) =
      skip_block (advance 2 r₃) h.cipher_suites methods
        (skip_two r₃ (n / 256) (n % 256) (h.cipher_suites ++ methods) at_suites) in
    let r₄ = advance n (advance 2 r₃) in
    let (skip₅, at_extensions) =
      skip_block (advance 1 r₄) h.compression (extension_block h)
        (skip_one r₄ (length h.compression) (h.compression ++ extension_block h) at_methods) in
    (
      advance (length h.compression) (advance 1 r₄),
      ground (
        arith,
        size,
        skip₁,
        skip₂,
        take_u8-IsAt r₂ (length h.session_id) (h.session_id ++ suites) at_session,
        skip₃,
        take_u16-be16 r₃ n (h.cipher_suites ++ methods) at_suites,
        skip₄,
        take_u8-IsAt r₄ (length h.compression) (h.compression ++ extension_block h) at_methods,
        skip₅,
      ),
      at_extensions,
    )

-- A hello that can be written: its random part has 32 bytes, its host names are texts, and the last
-- of them is `lower` in lower case.
pub record IsHello (lower_utf8 : Bytes → Option Bytes) (h : ClientHello) (lower : Bytes)
    : Type 0 where
  pub random_size : length h.random ≡ 32
  pub readable : All (IsReadable lower_utf8) h.extensions
  pub named : lowered lower_utf8 (last_host none h.extensions) ≡ some lower
  pub small : length (write_handshake h) ≤ max_hello

abbrev pub alpn_of : ClientHello → Alpn
alpn_of h = last_protocols [] h.extensions

parse_client_hello-write_handshake :
    (lower_utf8 : Bytes → Option Bytes) (h : ClientHello) (lower : Bytes)
    → IsHello lower_utf8 h lower
    → parse_client_hello lower_utf8 (write_handshake h) ≡ ok (lower, alpn_of h)
unfolding parse_client_hello
parse_client_hello-write_handshake lower_utf8 h lower v =
    let body = write_body h in
    let n = length body in
    let r = new_reader (write_handshake h) in
    let start = new_reader-IsAt (write_handshake h) in
    let at_len = skip_one r 0x01 (be24 n (body ++ [])) start in
    let at_body =
      advance-IsAt (advance 1 r) (n / 65536 ∷ n / 256 % 256 ∷ n % 256 ∷ []) (body ++ []) at_len in
    let exts = write_extensions (extensions_of h) in
    let (e, skipped, at_ext) =
      skip_to_extensions-IsAt lower_utf8 h (new_reader body) v.random_size (new_reader-IsAt body) in
    let at_list = skip_two e (length exts / 256) (length exts % 256) (exts ++ []) at_ext in
    let number : n / 65536 * 65536 + n / 256 % 256 * 256 + n % 256 ≡ n = omega arith in
    ground (
      arith,
      take_u8-IsAt r 0x01 (be24 n (body ++ [])) start,
      take_u24-IsAt (advance 1 r) (n / 65536) (n / 256 % 256) (n % 256) (body ++ []) at_len,
      number,
      take_reader-IsAt n (advance 3 (advance 1 r)) body [] refl at_body,
      skipped,
      take_u16-be16 e (length exts) (exts ++ []) at_ext,
      take_reader-IsAt (length exts) (advance 2 e) exts [] refl at_list,
      extensions_loop-write_extensions lower_utf8 (length exts) (extensions_of h) (new_reader exts)
          (none, []) (new_reader-IsAt exts) (omega arith),
      read_extensions-last lower_utf8 h.extensions none none [] v.readable refl,
      v.named,
    )

-- A record of a handshake message.
abbrev record_of : Bytes → Bytes
record_of message = 0x16 ∷ 0x03 ∷ 0x01 ∷ be16 (length message) message

read_at_least-append :
    (lower_utf8 : Bytes → Option Bytes) (bytes later : Bytes) (n : ℕ)
    → n ≡ length bytes
    → read_at_least lower_utf8 (bytes ++ later) n ≡ ok bytes
unfolding read_at_least
read_at_least-append lower_utf8 bytes later n e =
    rw e (ground (arith, length-append bytes later, take-append bytes later))

peek_sni-record_of :
    (lower_utf8 : Bytes → Option Bytes) (message later name : Bytes) (alpn : Alpn)
    → 0 < length message
    → length message ≤ max_hello
    → parse_client_hello lower_utf8 message ≡ ok (name, alpn)
    → peek_sni lower_utf8 (record_of message ++ later)
      ≡ ok (record { server_name = name; alpn = alpn; buffered = record_of message })
unfolding peek_sni
peek_sni-record_of lower_utf8 message later name alpn some_byte small parsed =
    let n = length message in
    let number : n / 256 * 256 + n % 256 ≡ n = omega arith in
    let start = 0x16 ∷ 0x03 ∷ 0x01 ∷ n / 256 ∷ n % 256 ∷ [] in
    ground (
      arith,
      number,
      read_at_least-append lower_utf8 start (message ++ later) 5 refl,
      read_at_least-append lower_utf8 (record_of message) later (5 + n) (omega arith),
      parsed,
    )

pub peek_sni-write_record :
    (lower_utf8 : Bytes → Option Bytes) (h : ClientHello) (lower later : Bytes)
    → IsHello lower_utf8 h lower
    → peek_sni lower_utf8 (write_record h ++ later)
      ≡ ok (record { server_name = lower; alpn = alpn_of h; buffered = write_record h })
peek_sni-write_record lower_utf8 h lower later v =
    peek_sni-record_of lower_utf8 (write_handshake h) later lower (alpn_of h) (omega arith) v.small
      (parse_client_hello-write_handshake lower_utf8 h lower v)
