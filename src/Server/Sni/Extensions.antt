-- ===== src/Server/Sni/Extensions.antt =====
-- The extensions of a ClientHello, and the fields of a whole one.
use krot.Base.{
  ℕ, zero, suc, ◌/◌, ◌%◌, ◌≤◌, ◌≡◌, ◌≢◌, refl, sym, ap, map, inl, inr, Result-cases, Option, none,
  some, List, [], ◌∷◌, ◌++◌, Bytes, length, All, Result, ok, ◌>>=◌, length-append, arith,
}
use krot.Server.Error.{ServerError}
use krot.Server.Sni.{
  Alpn, Reader, new_reader, advance, sni_loop, parse_sni_extension, Found, read_extension,
  extensions_loop,
}
use krot.Server.Sni.Reading.{
  IsAt, new_reader-IsAt, advance-IsAt, is_empty-IsAt, nonempty-IsAt, take_u8-IsAt, take_reader-IsAt,
}
use krot.Server.Sni.Hello.{
  be16, be24, block8, block16, write_names, write_extensions, take_u16-be16, skip_two, skip_one,
  remaining-new_reader, parse_alpn_extension-write_names,
}

-- The list of one host name.
abbrev pub write_host : Bytes → Bytes
write_host name = 0 ∷ block16 name []

-- An extension: a host name, protocols, or one of another type.
pub data Extension : Type 0 where
  host_name : Bytes → Extension
  protocols : Alpn → Extension
  other : (ext_type : ℕ) (payload : Bytes) → Extension

abbrev pub write_extension : Extension → ℕ × Bytes
write_extension (host_name name) = (0x0000, block16 (write_host name) [])
write_extension (protocols names) = (0x0010, block16 (write_names names) [])
write_extension (other ext_type payload) = (ext_type, payload)

-- The last host name among extensions, or else the one given; and the last protocols.
abbrev pub last_host : Option Bytes → List Extension → Option Bytes
last_host name [] = name
last_host name (host_name n ∷ exts) = last_host (some n) exts
last_host name (protocols names ∷ exts) = last_host name exts
last_host name (other t p ∷ exts) = last_host name exts

abbrev pub last_protocols : Alpn → List Extension → Alpn
last_protocols alpn [] = alpn
last_protocols alpn (host_name n ∷ exts) = last_protocols alpn exts
last_protocols alpn (protocols names ∷ exts) = last_protocols names exts
last_protocols alpn (other t p ∷ exts) = last_protocols alpn exts

-- The fields of a hello, with extensions of any types in any order.
pub record ClientHello : Type 0 where
  pub major : ℕ
  pub minor : ℕ
  pub random : Bytes
  pub session_id : Bytes
  pub cipher_suites : Bytes
  pub compression : Bytes
  pub extensions : List Extension

abbrev pub extensions_of : ClientHello → List (ℕ × Bytes)
extensions_of h = map write_extension h.extensions

abbrev pub write_body : ClientHello → Bytes
write_body h =
    h.major
    ∷ h.minor
    ∷ (h.random
        ++ block8 h.session_id (
            block16 h.cipher_suites
              (block8 h.compression (block16 (write_extensions (extensions_of h)) []))))

abbrev pub write_handshake : ClientHello → Bytes
write_handshake h = 0x01 ∷ be24 (length (write_body h)) (write_body h ++ [])

abbrev pub write_record : ClientHello → Bytes
write_record h = 0x16 ∷ 0x03 ∷ 0x01 ∷ be16 (length (write_handshake h)) (write_handshake h)

module _ (lower_utf8 : Bytes → Option Bytes) where
  -- A host name is a text; another type is neither of the two.
  abbrev pub IsReadable : Extension → Type 0
  IsReadable (host_name name) = (lower : Bytes) × (lower_utf8 name ≡ some lower)
  IsReadable (protocols names) = Unit {0}
  IsReadable (other ext_type payload) = (ext_type ≢ 0x0000) × (ext_type ≢ 0x0010)

  abbrev pub lowered : Option Bytes → Option Bytes
  lowered none = none
  lowered (some name) = lower_utf8 name

  parse_sni_extension-write_host :
      (name lower : Bytes)
      → lower_utf8 name ≡ some lower
      → parse_sni_extension lower_utf8 (block16 (write_host name) []) ≡ ok lower
  unfolding parse_sni_extension sni_loop
  parse_sni_extension-write_host name lower e =
      let list = write_host name in
      let r = new_reader (block16 list []) in
      let start = new_reader-IsAt (block16 list []) in
      let at_list = skip_two r (length list / 256) (length list % 256) (list ++ []) start in
      let l = new_reader list in
      let at_entry = new_reader-IsAt list in
      let at_len = skip_one l 0 (block16 name []) at_entry in
      let at_name =
        skip_two (advance 1 l) (length name / 256) (length name % 256) (name ++ []) at_len in
      ground (
        arith,
        e,
        take_u16-be16 r (length list) (list ++ []) start,
        take_reader-IsAt (length list) (advance 2 r) list [] refl at_list,
        nonempty-IsAt l 0 (block16 name []) at_entry,
        take_u8-IsAt l 0 (block16 name []) at_entry,
        take_u16-be16 (advance 1 l) (length name) (name ++ []) at_len,
        take_reader-IsAt (length name) (advance 2 (advance 1 l)) name [] refl at_name,
        remaining-new_reader name,
      )

  -- The extensions one after the other, with no reader.
  abbrev pub read_extensions : List (ℕ × Bytes) → Found → Result ServerError Found
  read_extensions [] found = ok found
  read_extensions ((ext_type, payload) ∷ exts) found =
      read_extension lower_utf8 ext_type payload found >>= read_extensions exts

  pub extensions_loop-write_extensions :
      (fuel : ℕ) (exts : List (ℕ × Bytes)) (r : Reader) (found : Found)
      → IsAt r (write_extensions exts)
      → length (write_extensions exts) ≤ fuel
      → extensions_loop lower_utf8 fuel r found ≡ read_extensions exts found
  unfolding extensions_loop
  extensions_loop-write_extensions zero [] r found h f = ground (arith, is_empty-IsAt r h)
  extensions_loop-write_extensions (suc fuel) [] r found h f = ground (arith, is_empty-IsAt r h)
  extensions_loop-write_extensions zero ((t, p) ∷ exts) r found h f = absurd (omega arith)
  extensions_loop-write_extensions (suc fuel) ((t, p) ∷ exts) r found h f =
      let more = write_extensions exts in
      let at_len = skip_two r (t / 256) (t % 256) (block16 p more) h in
      let at_data = skip_two (advance 2 r) (length p / 256) (length p % 256) (p ++ more) at_len in
      let rest = advance (length p) (advance 2 (advance 2 r)) in
      let at_next = advance-IsAt (advance 2 (advance 2 r)) p more at_data in
      let behind = block16 p more in
      elim (Result-cases (read_extension lower_utf8 t p found)) [
        | inl (_, bad) ↦ ground (
          arith,
          bad,
          nonempty-IsAt r (t / 256) (t % 256 ∷ behind) h,
          take_u16-be16 r t behind h,
          take_u16-be16 (advance 2 r) (length p) (p ++ more) at_len,
          take_reader-IsAt (length p) (advance 2 (advance 2 r)) p more refl at_data,
          remaining-new_reader p,
        )
        | inr (found', good) ↦ ground (
          arith,
          good,
          nonempty-IsAt r (t / 256) (t % 256 ∷ behind) h,
          take_u16-be16 r t behind h,
          take_u16-be16 (advance 2 r) (length p) (p ++ more) at_len,
          take_reader-IsAt (length p) (advance 2 (advance 2 r)) p more refl at_data,
          remaining-new_reader p,
          extensions_loop-write_extensions fuel exts rest found' at_next
              (omega (arith, f, length-append p more)),
        )
      ]

  read_extension-other :
      (t : ℕ) (p : Bytes) (found : Found)
      → IsReadable (other t p)
      → read_extension lower_utf8 t p found ≡ ok found
  unfolding read_extension
  read_extension-other t p found h = ground (arith, h)

  read_extension-server_name :
      (name lower : Bytes) (found : Option Bytes) (alpn : Alpn)
      → lower_utf8 name ≡ some lower
      → read_extension lower_utf8 0x0000 (block16 (write_host name) []) (found, alpn)
        ≡ ok (some lower, alpn)
  unfolding read_extension
  read_extension-server_name name lower found alpn e =
      ground (arith, parse_sni_extension-write_host name lower e)

  read_extension-alpn :
      (names : Alpn) (found : Option Bytes) (alpn : Alpn)
      → read_extension lower_utf8 0x0010 (block16 (write_names names) []) (found, alpn)
        ≡ ok (found, names)
  unfolding read_extension
  read_extension-alpn names found alpn = ground (arith, parse_alpn_extension-write_names names)

  -- The last name and the last protocols are found.
  pub read_extensions-last :
      (exts : List Extension) (name found : Option Bytes) (alpn : Alpn)
      → All IsReadable exts
      → found ≡ lowered name
      → read_extensions (map write_extension exts) (found, alpn)
        ≡ ok (lowered (last_host name exts), last_protocols alpn exts)
  read_extensions-last [] name found alpn h e = ap (λ (n : Option Bytes). ok (n, alpn)) e
  read_extensions-last (host_name n ∷ exts) name found alpn h e =
      let (lower, is_text) = h.0 in
      rw (read_extension-server_name n lower found alpn is_text)
        (read_extensions-last exts (some n) (some lower) alpn h.1 (sym is_text))
  read_extensions-last (protocols names ∷ exts) name found alpn h e =
      rw (read_extension-alpn names found alpn) (read_extensions-last exts name found names h.1 e)
  read_extensions-last (other t p ∷ exts) name found alpn h e =
      rw (read_extension-other t p (found, alpn) h.0)
        (read_extensions-last exts name found alpn h.1 e)
