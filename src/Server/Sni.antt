-- ===== src/Server/Sni.antt =====
-- crates/krot-server/src/domain/sni.rs: the names that a TLS ClientHello asks for. `Reader` is a
-- buffer and a position in it. The loops run on the rounds that the length of what is read allows.
pub mod Reading
pub mod Rounds
pub mod Hello
pub mod Extensions
pub mod RoundTrip
pub mod Tests
use krot.Base.{
  ℕ, zero, suc, ◌+◌, ◌-◌, ◌*◌, ◌==◌, ltb, leb, not, ◌&&◌, ◌||◌, if◌then◌else◌, Bool, true, false,
  Option, none, some, List, [], ◌∷◌, ◌++◌, map, Bytes, length, take, drop, get_or, text, Result, ok,
  err, ok_or, ◌>>=◌,
}
use krot.Server.Error.{ServerError, protocol}

abbrev pub max_hello : ℕ
max_hello = 16 * 1024

abbrev pub Alpn : Type 0
Alpn = List Bytes

pub record SniPeek : Type 0 where
  pub server_name : Bytes
  pub alpn : Alpn
  pub buffered : Bytes

pub record Reader : Type 0 where
  pub buf : Bytes
  pub pos : ℕ

abbrev pub new_reader : Bytes → Reader
new_reader buf = record { buf = buf; pos = 0 }

unfoldable pub is_empty : Reader → Bool
is_empty r = leb (length r.buf) r.pos

unfoldable pub remaining : Reader → Bytes
remaining r = drop r.pos r.buf

unfoldable pub ensure : ℕ → Reader → Result ServerError (Unit {0})
ensure n r =
    if ltb (length r.buf - r.pos) n
    then err (protocol (text "truncated ClientHello field"))
    else ok tt

abbrev pub advance : ℕ → Reader → Reader
advance n r = record r { pos = r.pos + n }

abbrev pub byte_at : Reader → ℕ → ℕ
byte_at r i = get_or r.buf (r.pos + i) 0

unfoldable pub take_u8 : Reader → Result ServerError (ℕ × Reader)
unfolding ensure
take_u8 r = do _ ← ensure 1 r; ok (byte_at r 0, advance 1 r)

unfoldable pub take_u16 : Reader → Result ServerError (ℕ × Reader)
unfolding ensure
take_u16 r = do _ ← ensure 2 r; ok (byte_at r 0 * 256 + byte_at r 1, advance 2 r)

-- The union of three bytes at different places, as a sum.
unfoldable pub take_u24 : Reader → Result ServerError (ℕ × Reader)
unfolding ensure
take_u24 r = do
  _ ← ensure 3 r
  ok (byte_at r 0 * 65536 + byte_at r 1 * 256 + byte_at r 2, advance 3 r)

unfoldable pub skip : ℕ → Reader → Result ServerError Reader
unfolding ensure
skip n r = do _ ← ensure n r; ok (advance n r)

unfoldable pub take_reader : ℕ → Reader → Result ServerError (Reader × Reader)
unfolding ensure
take_reader n r = do _ ← ensure n r; ok (new_reader (take n (drop r.pos r.buf)), advance n r)

-- The rounds ran out.
abbrev pub stuck : ServerError
stuck = protocol []

unfoldable pub alpn_loop : ℕ → Reader → Result ServerError Alpn
unfolding is_empty take_u8 take_reader remaining
alpn_loop zero r = if is_empty r then ok [] else err stuck
alpn_loop (suc fuel) r =
    let round = do
      (name_len, r') ← take_u8 r
      (name, r'') ← take_reader name_len r'
      names ← alpn_loop fuel r''
      ok (remaining name ∷ names)
    in if is_empty r then ok [] else round

unfoldable pub parse_alpn_extension : Bytes → Result ServerError Alpn
unfolding alpn_loop take_u16 take_reader
parse_alpn_extension payload = do
  (list_len, r) ← take_u16 (new_reader payload)
  (list, _) ← take_reader list_len r
  alpn_loop (length list.buf) list

-- The names found so far.
abbrev pub Found : Type 0
Found = Option Bytes × Alpn

-- `str::from_utf8` and `to_lowercase`.
module _ (lower_utf8 : Bytes → Option Bytes) where
  unfoldable pub sni_loop : ℕ → Reader → Result ServerError Bytes
  unfolding is_empty take_u8 take_u16 take_reader remaining
  sni_loop zero r =
      if is_empty r then err (protocol (text "no host_name in SNI extension")) else err stuck
  sni_loop (suc fuel) r =
      let round = do
        (name_type, r') ← take_u8 r
        (name_len, r'') ← take_u16 r'
        (name, rest) ← take_reader name_len r''
        let later = sni_loop fuel rest
        if name_type == 0
            then ok_or (lower_utf8 (remaining name)) (protocol (text "non-utf8 SNI"))
            else later
      in if is_empty r then err (protocol (text "no host_name in SNI extension")) else round

  unfoldable pub parse_sni_extension : Bytes → Result ServerError Bytes
  unfolding sni_loop take_u16 take_reader
  parse_sni_extension payload = do
    (list_len, r) ← take_u16 (new_reader payload)
    (list, _) ← take_reader list_len r
    sni_loop (length list.buf) list

  -- The `match` on the type of an extension.
  unfoldable pub read_extension : ℕ → Bytes → Found → Result ServerError Found
  unfolding parse_sni_extension parse_alpn_extension
  read_extension ext_type payload (server_name, alpn) =
      let sni = do name ← parse_sni_extension payload; ok (some name, alpn)
      in let protocols = do names ← parse_alpn_extension payload; ok (server_name, names)
        in if ext_type == 0x0000
          then sni
          else if ext_type == 0x0010
          then protocols
          else ok (server_name, alpn)

  unfoldable pub extensions_loop : ℕ → Reader → Found → Result ServerError Found
  unfolding is_empty take_u16 take_reader remaining read_extension
  extensions_loop zero r found = if is_empty r then ok found else err stuck
  extensions_loop (suc fuel) r found =
      let round = do
        (ext_type, r') ← take_u16 r
        (ext_len, r'') ← take_u16 r'
        (ext_data, rest) ← take_reader ext_len r''
        found' ← read_extension ext_type (remaining ext_data) found
        extensions_loop fuel rest found'
      in if is_empty r then ok found else round

  -- The fields of the body up to the extensions.
  unfoldable pub skip_to_extensions : Reader → Result ServerError Reader
  unfolding take_u8 take_u16 skip
  skip_to_extensions body = do
    at_random ← skip 2 body
    at_session ← skip 32 at_random
    (sid_len, in_session) ← take_u8 at_session
    at_suites ← skip sid_len in_session
    (cs_len, in_suites) ← take_u16 at_suites
    at_methods ← skip cs_len in_suites
    (cm_len, in_methods) ← take_u8 at_methods
    skip cm_len in_methods

  unfoldable pub parse_client_hello : Bytes → Result ServerError (Bytes × Alpn)
  unfolding take_u8 take_u16 take_u24 take_reader skip_to_extensions extensions_loop
  parse_client_hello fragment = do
    (msg_type, r) ← take_u8 (new_reader fragment)
    let rest = do
      (hs_len, r') ← take_u24 r
      (body, _) ← take_reader hs_len r'
      at_ext ← skip_to_extensions body
      (ext_len, b) ← take_u16 at_ext
      (exts, _) ← take_reader ext_len b
      (server_name, alpn) ← extensions_loop (length exts.buf) exts (none, [])
      name ← ok_or server_name (protocol (text "no SNI extension in ClientHello"))
      ok (name, alpn)
    if not (msg_type == 0x01) then err (protocol (text "not a ClientHello")) else rest

  -- The socket is the bytes that arrive before its end.
  unfoldable pub read_at_least : Bytes → ℕ → Result ServerError Bytes
  read_at_least stream needed =
      if ltb (length stream) needed
      then err (protocol (text "eof while reading ClientHello"))
      else ok (take needed stream)

  unfoldable pub peek_sni : Bytes → Result ServerError SniPeek
  unfolding read_at_least parse_client_hello
  peek_sni stream = do
    head ← read_at_least stream 5
    let record_len = get_or head 3 0 * 256 + get_or head 4 0
    let peeked = do
      buf ← read_at_least stream (5 + record_len)
      (server_name, alpn) ← parse_client_hello (drop 5 buf)
      ok (record { server_name = server_name; alpn = alpn; buffered = buf })
    if not (get_or head 0 0 == 0x16)
        then err (protocol (text "not a TLS handshake record"))
        else if (record_len == 0) || ltb max_hello record_len
        then err (protocol (text "implausible TLS record length"))
        else peeked
