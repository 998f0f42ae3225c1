-- ===== src/Proto/Framing/Varint.antt =====
-- The LEB128 length prefix: what the writer writes and what the reader makes of any input.
use krot.Base.{
  ℕ, zero, suc, ◌+◌, ◌*◌, ◌%◌, ◌^◌, ◌<◌, ◌≤◌, ◌≡◌, some, Option-cases, Bool-cases, ◌==◌, bit_and,
  ◌-◌, inl, inr, [], ◌∷◌, ◌++◌, Bytes, length, take, All, IsByte, IsU32, low_bits, bit_or_disjoint,
  ok, arith,
}
use krot.Proto.Framing.{add_group, read_loop, read_varint_u32, write_varint_u32}
use krot.Proto.Framing.Groups.{
  varint, write_varint_u32-varint, varint-length, varint-IsByte, read_loop-varint,
}

-- Every u32 is written in 1 to 5 bytes behind what `out` held.
pub write_varint_u32_shape :
    (v : ℕ) (out : Bytes)
    → IsU32 v
    → (prefix : Bytes) × (write_varint_u32 v out ≡ out ++ prefix)
      × All IsByte prefix
      × (1 ≤ length prefix)
      × (length prefix ≤ 5)
write_varint_u32_shape v out h =
    let (lo, hi) = varint-length 4 v in
    (varint 4 v, write_varint_u32-varint v out h, varint-IsByte 4 v (omega arith), lo, hi)

-- The reader returns the u32 that was written and the bytes that it took, whatever follows.
pub read-write_varint_u32 :
    (v : ℕ) (rest : Bytes)
    → IsU32 v
    → read_varint_u32 (write_varint_u32 v [] ++ rest) ≡ ok (v, length (write_varint_u32 v []))
unfolding read_varint_u32
read-write_varint_u32 v rest h =
    rw (write_varint_u32-varint v [] h) (ground (arith, read_loop-varint 4 5 v 0 0 rest))

-- The number that groups of seven bits spell from place `i` on, lowest group first.
abbrev pub groups_value : ℕ → Bytes → ℕ
groups_value i [] = 0
groups_value i (b ∷ bs) = b % 128 * 2 ^ (i * 7) + groups_value (i + 1) bs

add_group_value :
    (acc b i a : ℕ)
    → IsByte b
    → i < 5
    → acc < 2 ^ (i * 7)
    → add_group acc b i ≡ some a
    → (a ≡ acc + b % 128 * 2 ^ (i * 7)) × IsU32 a × (a < 2 ^ ((i + 1) * 7))
unfolding add_group
add_group_value acc b zero a hb hi ha e =
    ground (arith, low_bits b hb, bit_or_disjoint 0 acc (b % 128))
add_group_value acc b (suc zero) a hb hi ha e =
    ground (arith, low_bits b hb, bit_or_disjoint 7 acc (b % 128))
add_group_value acc b (suc (suc zero)) a hb hi ha e =
    ground (arith, low_bits b hb, bit_or_disjoint 14 acc (b % 128))
add_group_value acc b (suc (suc (suc zero))) a hb hi ha e =
    ground (arith, low_bits b hb, bit_or_disjoint 21 acc (b % 128))
add_group_value acc b (suc (suc (suc (suc zero)))) a hb hi ha e =
    ground (arith, low_bits b hb, bit_or_disjoint 28 acc (b % 128))
add_group_value acc b (suc (suc (suc (suc (suc i))))) a hb hi ha e = absurd (omega arith)

groups_value-take :
    (i k j b : ℕ) (input : Bytes)
    → k ≡ suc j
    → groups_value i (take k (b ∷ input))
      ≡ b % 128 * 2 ^ (i * 7) + groups_value (i + 1) (take j input)
groups_value-take i k j b input e = rw e

read_loop_value :
    (left : ℕ) (input : Bytes) (i acc v n : ℕ)
    → All IsByte input
    → i + left ≤ 5
    → acc < 2 ^ (i * 7)
    → read_loop left input i acc ≡ ok (v, n)
    → (v ≡ acc + groups_value i (take (n - i) input))
      × IsU32 v
      × (i < n)
      × (n ≤ i + left)
      × (n ≤ i + length input)
unfolding read_loop
read_loop_value zero input i acc v n hb hi ha e = cc
read_loop_value (suc left) [] i acc v n hb hi ha e = cc
read_loop_value (suc left) (b ∷ input) i acc v n hb hi ha e =
    elim (Option-cases (add_group acc b i)) [
      | inl dropped ↦ ground (arith, dropped)
      | inr (a, kept) ↦ elim (Bool-cases (bit_and b 0x80 == 0)) [
        | inl last ↦ ground (
          arith,
          kept,
          last,
          groups_value-take i (n - i) 0 b input,
          add_group_value acc b i a hb.0 (omega arith) ha kept,
        )
        | inr more ↦ ground (
          arith,
          kept,
          more,
          groups_value-take i (n - i) (n - (i + 1)) b input,
          add_group_value acc b i a hb.0 (omega arith) ha kept,
          read_loop_value left input (i + 1) a v n hb.1 (omega arith),
        )
      ]
    ]

-- What the reader accepts: it takes 1 to 5 of the bytes that are there, and returns the u32 that
-- their groups of seven bits spell, none of them dropped.
pub read_varint_u32_value :
    (input : Bytes) (v n : ℕ)
    → All IsByte input
    → read_varint_u32 input ≡ ok (v, n)
    → (v ≡ groups_value 0 (take n input)) × IsU32 v × (1 ≤ n) × (n ≤ 5) × (n ≤ length input)
unfolding read_varint_u32
read_varint_u32_value input v n hb e = ground (arith, read_loop_value 5 input 0 0 v n hb)
