-- ===== src/Server/Sni/Hello.antt =====
-- A ClientHello as TLS writes it, and what the parser makes of it.
use krot.Base.{
  ℕ, zero, suc, ◌+◌, ◌*◌, ◌/◌, ◌%◌, ◌≤◌, ◌≡◌, refl, ap, ◌∙◌, List, [], ◌∷◌, ◌++◌, Bytes, length, ok,
  length-append, arith,
}
use krot.Server.Sni.{
  Alpn, Reader, new_reader, remaining, take_u16, advance, alpn_loop, parse_alpn_extension,
}
use krot.Server.Sni.Reading.{
  IsAt, new_reader-IsAt, advance-IsAt, is_empty-IsAt, nonempty-IsAt, take_u8-IsAt, take_u16-IsAt,
  take_reader-IsAt,
}

-- A number of 16 bits, highest byte first, in front of bytes.
abbrev pub be16 : ℕ → Bytes → Bytes
be16 n rest = n / 256 ∷ n % 256 ∷ rest

abbrev pub be24 : ℕ → Bytes → Bytes
be24 n rest = n / 65536 ∷ n / 256 % 256 ∷ n % 256 ∷ rest

-- Bytes behind their length.
abbrev pub block8 : Bytes → Bytes → Bytes
block8 bytes rest = length bytes ∷ (bytes ++ rest)

abbrev pub block16 : Bytes → Bytes → Bytes
block16 bytes rest = be16 (length bytes) (bytes ++ rest)

abbrev pub write_names : Alpn → Bytes
write_names [] = []
write_names (name ∷ names) = block8 name (write_names names)

abbrev pub write_extensions : List (ℕ × Bytes) → Bytes
write_extensions [] = []
write_extensions ((ext_type, payload) ∷ exts) =
    be16 ext_type (block16 payload (write_extensions exts))

-- A field of 16 bits is read, and the block behind it.
pub take_u16-be16 :
    (r : Reader) (n : ℕ) (rest : Bytes) → IsAt r (be16 n rest) → take_u16 r ≡ ok (n, advance 2 r)
take_u16-be16 r n rest h =
    let same : n / 256 * 256 + n % 256 ≡ n = omega arith in
    take_u16-IsAt r (n / 256) (n % 256) rest h ∙ ap (λ k. ok (k, advance 2 r)) same

pub skip_two :
    (r : Reader) (a b : ℕ) (rest : Bytes) → IsAt r (a ∷ b ∷ rest) → IsAt (advance 2 r) rest
skip_two r a b rest h = advance-IsAt r (a ∷ b ∷ []) rest h

pub skip_one : (r : Reader) (a : ℕ) (rest : Bytes) → IsAt r (a ∷ rest) → IsAt (advance 1 r) rest
skip_one r a rest h = advance-IsAt r (a ∷ []) rest h

pub remaining-new_reader : (bytes : Bytes) → remaining (new_reader bytes) ≡ bytes
unfolding remaining
remaining-new_reader bytes = refl

alpn_loop-write_names :
    (fuel : ℕ) (names : Alpn) (r : Reader)
    → IsAt r (write_names names)
    → length (write_names names) ≤ fuel
    → alpn_loop fuel r ≡ ok names
unfolding alpn_loop
alpn_loop-write_names zero [] r h f = ground (arith, is_empty-IsAt r h)
alpn_loop-write_names (suc fuel) [] r h f = ground (arith, is_empty-IsAt r h)
alpn_loop-write_names zero (name ∷ names) r h f = absurd (omega arith)
alpn_loop-write_names (suc fuel) (name ∷ names) r h f =
    let more = write_names names in
    let at_name = skip_one r (length name) (name ++ more) h in
    let at_next = advance-IsAt (advance 1 r) name more at_name in
    ground (
      arith,
      nonempty-IsAt r (length name) (name ++ more) h,
      take_u8-IsAt r (length name) (name ++ more) h,
      take_reader-IsAt (length name) (advance 1 r) name more refl at_name,
      remaining-new_reader name,
      alpn_loop-write_names fuel names (advance (length name) (advance 1 r)) at_next
          (omega (arith, f, length-append name more)),
    )

-- The list of protocols is read back.
pub parse_alpn_extension-write_names :
    (names : Alpn) → parse_alpn_extension (block16 (write_names names) []) ≡ ok names
unfolding parse_alpn_extension
parse_alpn_extension-write_names names =
    let list = write_names names in
    let r = new_reader (block16 list []) in
    let start = new_reader-IsAt (block16 list []) in
    let at_list = skip_two r (length list / 256) (length list % 256) (list ++ []) start in
    ground (
      arith,
      take_u16-be16 r (length list) (list ++ []) start,
      take_reader-IsAt (length list) (advance 2 r) list [] refl at_list,
      alpn_loop-write_names (length list) names (new_reader list) (new_reader-IsAt list)
          (omega arith),
    )
