-- ===== src/Proto/Framing/Groups.antt =====
-- One round of the varint reader, and what the writer writes, in plain arithmetic.
use mathlib.Core.WellFounded.{Acc}
use krot.Base.{
  ℕ, zero, suc, ◌+◌, ◌*◌, ◌/◌, ◌%◌, ◌^◌, ◌<◌, ◌≤◌, ◌≡◌, ap, ◌∙◌, leb, if◌then◌else◌, some, [], ◌∷◌,
  ◌++◌, append_assoc, Bytes, length, All, IsByte, IsU32, low_bits, top_bit, mark_top, bit_and,
  bit_or, ok, bit_or_disjoint, arith,
}
use native.Mathlib.Nat.{div-add-mod}
use native.Mathlib.Numerals.{towards_suc}
use krot.Base.Order.{lt_wf}
use krot.Proto.Framing.{read_loop, add_group, write_loop, write_varint_u32}

-- The groups of `v`, lowest first, for `v` below 128 ^ (k + 1).
unfoldable pub varint : ℕ → ℕ → Bytes
varint zero v = v ∷ []
varint (suc k) v =
    let rest = varint k (v / 128) in if leb 128 v then (v % 128 + 128) ∷ rest else v ∷ []

marked : (v : ℕ) → bit_or (bit_and (v % 256) 0x7f) 0x80 ≡ v % 128 + 128
marked v = rw (mark_top (v % 256) (omega arith)) (omega arith)

write_loop-varint :
    (k v : ℕ) (w : Acc ◌<◌ v) (out : Bytes)
    → v < 128 ^ suc k
    → write_loop v w out ≡ out ++ varint k v
unfolding write_loop varint
write_loop-varint zero v (Acc.intro _ smaller) out h = ground arith
write_loop-varint (suc k) v (Acc.intro _ smaller) out h =
    let head : Bytes = (v % 128 + 128) ∷ [] in
    grind (
      arith,
      marked v,
      λ (w : Acc ◌<◌ (v / 128)). write_loop-varint k (v / 128) w (out ++ head) (omega arith),
      append_assoc out head (varint k (v / 128)),
    )

-- `write_varint_u32` keeps `out` and appends the groups.
pub write_varint_u32-varint :
    (v : ℕ) (out : Bytes) → IsU32 v → write_varint_u32 v out ≡ out ++ varint 4 v
unfolding write_varint_u32
write_varint_u32-varint v out h = write_loop-varint 4 v (lt_wf.apply v) out (omega arith)

pub varint-length : (k v : ℕ) → (1 ≤ length (varint k v)) × (length (varint k v) ≤ suc k)
unfolding varint
varint-length zero v = omega arith
varint-length (suc k) v = ground (arith, varint-length k (v / 128))

pub varint-IsByte : (k v : ℕ) → v < 128 ^ suc k → All IsByte (varint k v)
unfolding varint
varint-IsByte zero v h = (omega arith, tt)
varint-IsByte (suc k) v h = ground (arith, varint-IsByte k (v / 128) (omega arith))

-- A round that keeps all its bits adds the group at its place.
add_group_lem :
    (acc b i : ℕ)
    → IsByte b
    → i < 5
    → acc < 2 ^ (i * 7)
    → acc + b % 128 * 2 ^ (i * 7) < 2 ^ 32
    → add_group acc b i ≡ some (acc + b % 128 * 2 ^ (i * 7))
unfolding add_group
add_group_lem acc b zero hb hi ha fits =
    ground (arith, low_bits b hb, bit_or_disjoint 0 acc (b % 128))
add_group_lem acc b (suc zero) hb hi ha fits =
    ground (arith, low_bits b hb, bit_or_disjoint 7 acc (b % 128))
add_group_lem acc b (suc (suc zero)) hb hi ha fits =
    ground (arith, low_bits b hb, bit_or_disjoint 14 acc (b % 128))
add_group_lem acc b (suc (suc (suc zero))) hb hi ha fits =
    ground (arith, low_bits b hb, bit_or_disjoint 21 acc (b % 128))
add_group_lem acc b (suc (suc (suc (suc zero)))) hb hi ha fits =
    ground (arith, low_bits b hb, bit_or_disjoint 28 acc (b % 128))
add_group_lem acc b (suc (suc (suc (suc (suc i))))) hb hi ha fits = absurd (omega arith)

pub shift_next : (i : ℕ) → 2 ^ ((i + 1) * 7) ≡ 128 * 2 ^ (i * 7)
shift_next i =
    let e : (i + 1) * 7 ≡ i * 7 + 7 = omega arith in
    ap (λ (t : ℕ). 2 ^ t) e ∙ simp towards_suc (omega arith)

-- The bits of `v` at place `i`: the lowest group, and the rest one place higher.
split_groups : (v i : ℕ) → v * 2 ^ (i * 7) ≡ v % 128 * 2 ^ (i * 7) + v / 128 * 2 ^ ((i + 1) * 7)
split_groups v i = omega (
  arith,
  ap (λ (t : ℕ). t * 2 ^ (i * 7)) (div-add-mod v 128),
  ap (λ (t : ℕ). v / 128 * t) (shift_next i),
)

group_bound : (r s : ℕ) → r < 128 → r * s ≤ 127 * s
group_bound r s h = grind arith

-- The reader takes the groups of `v` at byte `i` and stops behind them.
pub read_loop-varint :
    (k left v acc i : ℕ) (rest : Bytes)
    → v < 128 ^ suc k
    → k < left
    → i + left ≤ 5
    → acc < 2 ^ (i * 7)
    → acc + v * 2 ^ (i * 7) < 2 ^ 32
    → read_loop left (varint k v ++ rest) i acc
      ≡ ok (acc + v * 2 ^ (i * 7), i + length (varint k v))
unfolding read_loop varint
read_loop-varint k zero v acc i rest hv hk hi ha fits = absurd (omega arith)
read_loop-varint zero (suc left) v acc i rest hv hk hi ha fits =
    ground (arith, add_group_lem acc v i, top_bit v)
read_loop-varint (suc k) (suc left) v acc i rest hv hk hi ha fits = ground (
  arith,
  shift_next i,
  split_groups v i,
  group_bound (v % 128) (2 ^ (i * 7)),
  add_group_lem acc v i,
  top_bit v,
  add_group_lem acc (v % 128 + 128) i,
  top_bit (v % 128 + 128),
  read_loop-varint k left (v / 128) (acc + v % 128 * 2 ^ (i * 7)) (i + 1) rest,
)
