-- ===== src/Base/Text.antt =====
-- String literals as bytes, and the decimal form of a number (`{}` of an integer).
use Prim.Native.Char.{code}
use Prim.Native.String.{String}
use Prim.Native.Nat.{ℕ, ◌+◌, ◌/◌, ◌%◌, ◌<◌}
use mathlib.Core.List.{[], ◌∷◌, ◌++◌}
use mathlib.Core.Logic.{dite}
use mathlib.Core.WellFounded.{Acc}
use native.Mathlib.Decide.{dec_le}
use native.Mathlib.Omega.{arith}
use krot.Base.Tests.{Bytes}
use krot.Base.Order.{lt_wf}

-- The code points of a literal, which are its bytes if it is ASCII.
abbrev pub text : String → Bytes
text String.[] = []
text (String.◌∷◌ c s) = code c ∷ text s

decimal_acc : (n : ℕ) → Acc ◌<◌ n → Bytes
decimal_acc n (Acc.intro _ smaller) =
    dite (dec_le 10 n)
      (λ h. decimal_acc (n / 10) (smaller (n / 10) (omega arith)) ++ ((n % 10 + 48) ∷ []))
      (λ _. (n % 10 + 48) ∷ [])

unfoldable pub decimal : ℕ → Bytes
unfolding decimal_acc lt_wf dec_le
decimal n = decimal_acc n (lt_wf.apply n)
