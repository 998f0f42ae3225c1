-- ===== src/Base/HashSet.antt =====
-- A hash set as a list.
use mathlib.Core.Path.{◌≡◌}
use mathlib.Core.Bool.{Bool, true, false, ◌||◌, not, ◌&&◌}
use mathlib.Core.List.{List, [], ◌∷◌}
use native.Mathlib.Omega.{arith}
use krot.Base.Tests.{if◌then◌else◌, Eq}

abbrev pub HashSet {ℓ} : Type ℓ → Type ℓ
HashSet K = List K

module _ {ℓ} {K : Type ℓ} ⦃e : Eq K⦄ where
  unfoldable pub contains : K → HashSet K → Bool
  contains k [] = false
  contains k (j ∷ s) = e.beq j k || contains k s

  unfoldable pub insert : K → HashSet K → HashSet K
  unfolding contains
  insert k s = if contains k s then s else k ∷ s

  unfoldable pub remove : K → HashSet K → HashSet K
  remove k [] = []
  remove k (j ∷ s) = let rest = remove k s in if e.beq j k then rest else j ∷ rest

  pub contains-insert :
      (k j : K) (s : HashSet K) → contains j (insert k s) ≡ (e.beq k j || contains j s)
  unfolding contains insert
  contains-insert k j s = ground (arith, e.beq_iff k j, contains-hit)
    where
      contains-hit : contains k s ≡ true → k ≡ j → contains j s ≡ true
      contains-hit h p = cc

  pub contains-remove :
      (k j : K) (s : HashSet K) → contains j (remove k s) ≡ (not (e.beq k j) && contains j s)
  unfolding contains remove
  contains-remove k j [] = ground arith
  contains-remove k j (i ∷ s) =
      ground (arith, e.beq_iff i k, e.beq_iff i j, e.beq_iff k j, contains-remove k j s)
