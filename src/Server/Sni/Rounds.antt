-- ===== src/Server/Sni/Rounds.antt =====
-- The loops over a ClientHello have rounds enough, whatever its bytes.
use krot.Base.{
  ℕ, zero, suc, ◌+◌, ◌-◌, ◌≤◌, ◌≡◌, ◌≢◌, refl, ◌==◌, true, false, Option, none, some, [], Bytes,
  length, drop, Result, ok, err, ok_or, ◌>>=◌, arith, if◌then◌else◌, Bool, not, ltb, get_or, ◌*◌,
  ◌||◌, subst,
}
use krot.Server.Error.{ServerError}
use krot.Server.Sni.{
  Reader, new_reader, remaining, is_empty, ensure, take_u8, take_u16, take_u24, skip, take_reader,
  stuck, alpn_loop, parse_alpn_extension, sni_loop, parse_sni_extension, Found, read_extension,
  extensions_loop, skip_to_extensions, parse_client_hello, read_at_least, peek_sni, max_hello,
}

-- The bytes in front of a reader.
abbrev pub left : Reader → ℕ
left r = length r.buf - r.pos

-- An error is not that of rounds that ran out.
abbrev pub IsMeant {ℓ} : {A : Type ℓ} → Result ServerError A → Type 0
IsMeant (ok a) = Unit {0}
IsMeant (err e) = e ≢ stuck

-- A field is read, and the reader is nearer to its end, or the bytes are too few.
abbrev pub Reads {ℓ} : {A : Type ℓ} → ℕ → Reader → Result ServerError (A × Reader) → Type 0
Reads n r (ok (a, r')) = left r' + n ≤ left r
Reads n r (err e) = e ≢ stuck

take_u8-Reads : (r : Reader) → Reads 1 r (take_u8 r)
unfolding take_u8 ensure
take_u8-Reads r = ground arith

take_u16-Reads : (r : Reader) → Reads 2 r (take_u16 r)
unfolding take_u16 ensure
take_u16-Reads r = ground arith

take_reader-Reads : (n : ℕ) (r : Reader) → Reads n r (take_reader n r)
unfolding take_reader ensure
take_reader-Reads n r = ground arith

skip-IsMeant : (n : ℕ) (r : Reader) → IsMeant (skip n r)
unfolding skip ensure
skip-IsMeant n r = ground arith

-- A step that does not run out, and one behind it that does not.
then-IsMeant {ℓ ℓ'} :
    {A : Type ℓ} {B : Type ℓ'} (x : Result ServerError A) (k : A → Result ServerError B)
    → IsMeant x
    → ((a : A) → x ≡ ok a → IsMeant (k a))
    → IsMeant (do a ← x; k a)
then-IsMeant (ok a) k h h' = h' a refl
then-IsMeant (err e) k h h' = h

Reads-IsMeant {ℓ} :
    {A : Type ℓ} (n : ℕ) (r : Reader) (x : Result ServerError (A × Reader))
    → Reads n r x
    → IsMeant x
Reads-IsMeant n r (ok a) h = tt
Reads-IsMeant n r (err e) h = h

read-IsMeant {ℓ ℓ'} :
    {A : Type ℓ} {B : Type ℓ'} (n : ℕ) (r : Reader) (x : Result ServerError (A × Reader))
    (k : A × Reader → Result ServerError B)
    → Reads n r x
    → ((a : A) (r' : Reader) → left r' + n ≤ left r → IsMeant (k (a, r')))
    → IsMeant (do p ← x; k p)
read-IsMeant n r (ok (a, r')) k h h' = h' a r' h
read-IsMeant n r (err e) k h h' = h

if-IsMeant {ℓ} :
    {A : Type ℓ} (b : Bool) (x y : Result ServerError A)
    → IsMeant x
    → IsMeant y
    → IsMeant (if b then x else y)
if-IsMeant true x y hx hy = hx
if-IsMeant false x y hx hy = hy

take_u24-Reads : (r : Reader) → Reads 3 r (take_u24 r)
unfolding take_u24 ensure
take_u24-Reads r = ground arith

alpn_loop-IsMeant : (fuel : ℕ) (r : Reader) → left r ≤ fuel → IsMeant (alpn_loop fuel r)
unfolding alpn_loop is_empty
alpn_loop-IsMeant zero r h = ground arith
alpn_loop-IsMeant (suc fuel) r h = if-IsMeant (is_empty r) (ok []) _ tt (
    read-IsMeant 1 r (take_u8 r) _ (take_u8-Reads r) (λ name_len r' h'.
      read-IsMeant name_len r' (take_reader name_len r') _ (take_reader-Reads name_len r')
        (λ name r'' h''.
          then-IsMeant (alpn_loop fuel r'') _ (alpn_loop-IsMeant fuel r'' (omega arith))
            (λ names e. tt))))

parse_alpn_extension-IsMeant : (payload : Bytes) → IsMeant (parse_alpn_extension payload)
unfolding parse_alpn_extension
parse_alpn_extension-IsMeant payload =
    let start = new_reader payload in
    read-IsMeant 2 start (take_u16 start) _ (take_u16-Reads start) (λ list_len r h.
      read-IsMeant list_len r (take_reader list_len r) _ (take_reader-Reads list_len r)
        (λ list r' h'. alpn_loop-IsMeant (length list.buf) list (omega arith)))

-- A result that is there, or an error of the caller's.
ok_or-IsMeant {ℓ} : {A : Type ℓ} (o : Option A) (e : ServerError) → e ≢ stuck → IsMeant (ok_or o e)
ok_or-IsMeant (some a) e h = tt
ok_or-IsMeant none e h = h

module _ (lower_utf8 : Bytes → Option Bytes) where
  sni_loop-IsMeant : (fuel : ℕ) (r : Reader) → left r ≤ fuel → IsMeant (sni_loop lower_utf8 fuel r)
  unfolding sni_loop is_empty
  sni_loop-IsMeant zero r h = ground arith
  sni_loop-IsMeant (suc fuel) r h =
      if-IsMeant (is_empty r) _ _ (λ e. ground (arith, e))
        (read-IsMeant 1 r (take_u8 r) _ (take_u8-Reads r) (λ name_type r1 h1.
          read-IsMeant 2 r1 (take_u16 r1) _ (take_u16-Reads r1) (λ name_len r2 h2.
            read-IsMeant name_len r2 (take_reader name_len r2) _ (take_reader-Reads name_len r2)
              (λ name r3 h3.
                if-IsMeant (name_type == 0) _ _
                  (ok_or-IsMeant (lower_utf8 (remaining name)) _ (λ e. ground (arith, e)))
                  (sni_loop-IsMeant fuel r3 (omega arith))))))

  parse_sni_extension-IsMeant : (payload : Bytes) → IsMeant (parse_sni_extension lower_utf8 payload)
  unfolding parse_sni_extension
  parse_sni_extension-IsMeant payload =
      let start = new_reader payload in
      read-IsMeant 2 start (take_u16 start) _ (take_u16-Reads start) (λ list_len r h.
        read-IsMeant list_len r (take_reader list_len r) _ (take_reader-Reads list_len r)
          (λ list r' h'. sni_loop-IsMeant (length list.buf) list (omega arith)))

  read_extension-IsMeant :
      (ext_type : ℕ) (payload : Bytes) (found : Found)
      → IsMeant (read_extension lower_utf8 ext_type payload found)
  unfolding read_extension
  read_extension-IsMeant ext_type payload (server_name, alpn) =
      if-IsMeant (ext_type == 0x0000) _ _
        (then-IsMeant (parse_sni_extension lower_utf8 payload) _
          (parse_sni_extension-IsMeant payload) (λ name e. tt))
        (if-IsMeant (ext_type == 0x0010) _ _
          (then-IsMeant (parse_alpn_extension payload) _ (parse_alpn_extension-IsMeant payload)
            (λ names e. tt))
          tt)

  extensions_loop-IsMeant :
      (fuel : ℕ) (r : Reader) (found : Found)
      → left r ≤ fuel
      → IsMeant (extensions_loop lower_utf8 fuel r found)
  unfolding extensions_loop is_empty
  extensions_loop-IsMeant zero r found h = ground arith
  extensions_loop-IsMeant (suc fuel) r found h = if-IsMeant (is_empty r) _ _ tt (
      read-IsMeant 2 r (take_u16 r) _ (take_u16-Reads r) (λ ext_type r1 h1.
        read-IsMeant 2 r1 (take_u16 r1) _ (take_u16-Reads r1) (λ ext_len r2 h2.
          read-IsMeant ext_len r2 (take_reader ext_len r2) _ (take_reader-Reads ext_len r2)
            (λ ext_data r3 h3.
              then-IsMeant (read_extension lower_utf8 ext_type (remaining ext_data) found) _
                (read_extension-IsMeant ext_type (remaining ext_data) found)
                (λ found' e. extensions_loop-IsMeant fuel r3 found' (omega arith))))))

  skip_to_extensions-IsMeant : (body : Reader) → IsMeant (skip_to_extensions lower_utf8 body)
  unfolding skip_to_extensions
  skip_to_extensions-IsMeant body = then-IsMeant (skip 2 body) _ (skip-IsMeant 2 body) (λ r1 e1.
      then-IsMeant (skip 32 r1) _ (skip-IsMeant 32 r1) (λ r2 e2.
        read-IsMeant 1 r2 (take_u8 r2) _ (take_u8-Reads r2) (λ sid_len r3 h3.
          then-IsMeant (skip sid_len r3) _ (skip-IsMeant sid_len r3) (λ r4 e4.
            read-IsMeant 2 r4 (take_u16 r4) _ (take_u16-Reads r4) (λ cs_len r5 h5.
              then-IsMeant (skip cs_len r5) _ (skip-IsMeant cs_len r5) (λ r6 e6.
                read-IsMeant 1 r6 (take_u8 r6) _ (take_u8-Reads r6)
                  (λ cm_len r7 h7. skip-IsMeant cm_len r7)))))))

  parse_client_hello-IsMeant : (fragment : Bytes) → IsMeant (parse_client_hello lower_utf8 fragment)
  unfolding parse_client_hello
  parse_client_hello-IsMeant fragment =
      let start = new_reader fragment in
      read-IsMeant 1 start (take_u8 start) _ (take_u8-Reads start) (λ msg_type r1 h1.
        if-IsMeant (not (msg_type == 0x01)) _ _ (λ e. ground (arith, e))
          (read-IsMeant 3 r1 (take_u24 r1) _ (take_u24-Reads r1) (λ hs_len r2 h2.
            read-IsMeant hs_len r2 (take_reader hs_len r2) _ (take_reader-Reads hs_len r2)
              (λ body r3 h3.
                then-IsMeant (skip_to_extensions lower_utf8 body) _
                  (skip_to_extensions-IsMeant body)
                  (λ at_ext e.
                    read-IsMeant 2 at_ext (take_u16 at_ext) _ (take_u16-Reads at_ext)
                      (λ ext_len b h4.
                        read-IsMeant ext_len b (take_reader ext_len b) _
                          (take_reader-Reads ext_len b)
                          (λ exts r5 h5.
                            then-IsMeant
                              (extensions_loop lower_utf8 (length exts.buf) exts (none, [])) _
                              (extensions_loop-IsMeant (length exts.buf) exts (none, [])
                                (omega arith))
                              (λ found e'.
                                then-IsMeant (ok_or (found.0) _) _
                                  (ok_or-IsMeant (found.0) _ (λ e''. ground (arith, e'')))
                                  (λ name e''. tt)))))))))

  read_at_least-IsMeant : (stream : Bytes) (n : ℕ) → IsMeant (read_at_least lower_utf8 stream n)
  unfolding read_at_least
  read_at_least-IsMeant stream n =
      if-IsMeant (ltb (length stream) n) _ _ (λ e. ground (arith, e)) tt

  peek_sni-IsMeant : (stream : Bytes) → IsMeant (peek_sni lower_utf8 stream)
  unfolding peek_sni
  peek_sni-IsMeant stream =
      then-IsMeant (read_at_least lower_utf8 stream 5) _ (read_at_least-IsMeant stream 5) (λ head e.
        let record_len = get_or head 3 0 * 256 + get_or head 4 0 in
        if-IsMeant (not (get_or head 0 0 == 0x16)) _ _ (λ e'. ground (arith, e'))
          (if-IsMeant ((record_len == 0) || ltb max_hello record_len) _ _ (λ e'. ground (arith, e'))
            (then-IsMeant (read_at_least lower_utf8 stream (5 + record_len)) _
              (read_at_least-IsMeant stream (5 + record_len))
              (λ buf e'.
                then-IsMeant (parse_client_hello lower_utf8 (drop 5 buf)) _
                  (parse_client_hello-IsMeant (drop 5 buf)) (λ names e''. tt)))))

  -- Every stream gets an answer: the loops of `peek_sni` never use up their rounds, so that an
  -- error is one of those that the code makes.
  pub peek_sni-terminates : (stream : Bytes) → peek_sni lower_utf8 stream ≢ err stuck
  peek_sni-terminates stream e = subst IsMeant e (peek_sni-IsMeant stream) refl
