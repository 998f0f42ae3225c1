-- ===== src/Server/Sni/Reading.antt =====
-- The reader of a ClientHello on bytes that are there.
use krot.Base.{
  ℕ, zero, suc, ◌+◌, ◌*◌, ◌≡◌, refl, sym, ap, ◌∙◌, [], ◌∷◌, ◌++◌, Bytes, true, false, length, drop,
  get_or, ok, length-append, take-append, drop-append, arith,
}
use krot.Transport.Frame.Reading.{drop-drop}
use krot.Server.Sni.{
  Reader, new_reader, is_empty, ensure, advance, byte_at, take_u8, take_u16, take_u24, skip,
  take_reader,
}

-- The reader stands before these bytes.
pub record IsAt (r : Reader) (bytes : Bytes) : Type 0 where
  pub left : drop r.pos r.buf ≡ bytes
  pub inside : r.pos + length bytes ≡ length r.buf

get_or-drop : (n i : ℕ) (xs : Bytes) → get_or xs (n + i) 0 ≡ get_or (drop n xs) i 0
get_or-drop zero i xs = ap (λ k. get_or xs k 0) (omega arith)
get_or-drop (suc n) i [] = none_there (suc n + i)
  where
    none_there : (k : ℕ) → get_or {A = ℕ} [] k 0 ≡ 0
    none_there k = refl
get_or-drop (suc n) i (x ∷ xs) = ap (λ k. get_or (x ∷ xs) k 0) shift ∙ get_or-drop n i xs
  where
    shift : suc n + i ≡ suc (n + i)
    shift = omega arith

pub new_reader-IsAt : (bytes : Bytes) → IsAt (new_reader bytes) bytes
new_reader-IsAt bytes = record { left = refl; inside = omega arith }

pub advance-IsAt :
    (r : Reader) (pre rest : Bytes) → IsAt r (pre ++ rest) → IsAt (advance (length pre) r) rest
advance-IsAt r pre rest h = record {
  left =
      sym (drop-drop r.pos (length pre) r.buf)
      ∙ (ap (λ x. drop (length pre) x) h.left ∙ drop-append pre rest);
  inside = omega (arith, h.inside, length-append pre rest);
}

pub is_empty-IsAt : (r : Reader) → IsAt r [] → is_empty r ≡ true
unfolding is_empty
is_empty-IsAt r h = ground (arith, h.inside)

pub nonempty-IsAt : (r : Reader) (b : ℕ) (bytes : Bytes) → IsAt r (b ∷ bytes) → is_empty r ≡ false
unfolding is_empty
nonempty-IsAt r b bytes h = ground (arith, h.inside)

byte_at-IsAt : (r : Reader) (i : ℕ) (bytes : Bytes) → IsAt r bytes → byte_at r i ≡ get_or bytes i 0
byte_at-IsAt r i bytes h = get_or-drop r.pos i r.buf ∙ ap (λ x. get_or x i 0) h.left

pub take_u8-IsAt :
    (r : Reader) (a : ℕ) (rest : Bytes) → IsAt r (a ∷ rest) → take_u8 r ≡ ok (a, advance 1 r)
unfolding take_u8 ensure
take_u8-IsAt r a rest h = ground (arith, h.inside, byte_at-IsAt r 0 (a ∷ rest) h)

pub take_u16-IsAt :
    (r : Reader) (a b : ℕ) (rest : Bytes)
    → IsAt r (a ∷ b ∷ rest)
    → take_u16 r ≡ ok (a * 256 + b, advance 2 r)
unfolding take_u16 ensure
take_u16-IsAt r a b rest h =
    ground (arith, h.inside, byte_at-IsAt r 0 (a ∷ b ∷ rest) h, byte_at-IsAt r 1 (a ∷ b ∷ rest) h)

pub take_u24-IsAt :
    (r : Reader) (a b c : ℕ) (rest : Bytes)
    → IsAt r (a ∷ b ∷ c ∷ rest)
    → take_u24 r ≡ ok (a * 65536 + b * 256 + c, advance 3 r)
unfolding take_u24 ensure
take_u24-IsAt r a b c rest h = ground (
  arith,
  h.inside,
  byte_at-IsAt r 0 (a ∷ b ∷ c ∷ rest) h,
  byte_at-IsAt r 1 (a ∷ b ∷ c ∷ rest) h,
  byte_at-IsAt r 2 (a ∷ b ∷ c ∷ rest) h,
)

pub skip-IsAt :
    (n : ℕ) (r : Reader) (pre rest : Bytes)
    → n ≡ length pre
    → IsAt r (pre ++ rest)
    → skip n r ≡ ok (advance n r)
unfolding skip ensure
skip-IsAt n r pre rest e h = ground (arith, h.inside, e, length-append pre rest)

pub take_reader-IsAt :
    (n : ℕ) (r : Reader) (pre rest : Bytes)
    → n ≡ length pre
    → IsAt r (pre ++ rest)
    → take_reader n r ≡ ok (new_reader pre, advance n r)
unfolding take_reader ensure
take_reader-IsAt n r pre rest e h =
    ground (arith, h.inside, e, length-append pre rest, h.left, take-append pre rest)
