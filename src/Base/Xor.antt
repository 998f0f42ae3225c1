-- ===== src/Base/Xor.antt =====
-- The union and the exclusive or of two bytes, by evaluation.
use Prim.Native.Nat.{ℕ, bit_or, bit_xor}
use mathlib.Core.Path.{◌≡◌, refl}
use mathlib.Core.Logic.{◌↔◌}
use mathlib.Core.Bool.{Bool, true, false, not, ◌&&◌}
use native.Mathlib.Omega.{arith}
use krot.Base.Tests.{◌==◌, ltb}
use krot.Base.Bits.{IsByte, holds_below, holds_below→holds}

abbrev same : Bool → Bool → Bool
same true b = b
same false b = not b

abbrev for_bytes : (ℕ → ℕ → Bool) → Bool
for_bytes p = holds_below 256 (λ a. holds_below 256 (λ b. p a b))

for_bytes→holds :
    (p : ℕ → ℕ → Bool) (a b : ℕ) → IsByte a → IsByte b → for_bytes p ≡ true → p a b ≡ true
for_bytes→holds p a b ha hb h =
    holds_below→holds 256 (λ y. p a y) b
      (holds_below→holds 256 (λ x. holds_below 256 (λ y. p x y)) a h ha) hb

abbrev xor_test : ℕ → ℕ → Bool
xor_test a b = same (bit_xor a b == 0) (a == b) && ltb (bit_xor a b) 256

abbrev or_test : ℕ → ℕ → Bool
or_test a b = same (bit_or a b == 0) ((a == 0) && (b == 0)) && ltb (bit_or a b) 256

xor_table : for_bytes xor_test ≡ true
unfolding holds_below
xor_table = refl

or_table : for_bytes or_test ≡ true
unfolding holds_below
or_table = refl

-- `x ^ y` is zero exactly for equal bytes, and a byte.
pub xor_bytes :
    (a b : ℕ) → IsByte a → IsByte b → ((bit_xor a b ≡ 0) ↔ (a ≡ b)) × IsByte (bit_xor a b)
xor_bytes a b ha hb = ground (arith, for_bytes→holds xor_test a b ha hb xor_table)

-- `x | y` is zero exactly if both are, and a byte.
pub or_bytes :
    (a b : ℕ) → IsByte a → IsByte b → ((bit_or a b ≡ 0) ↔ ((a ≡ 0) × (b ≡ 0))) × IsByte (bit_or a b)
or_bytes a b ha hb = ground (arith, for_bytes→holds or_test a b ha hb or_table)
