-- ===== src/Base/Map.antt =====
-- A hash map as an association list. The order of the list stands for the order of an
-- iteration, which Rust leaves open.
use mathlib.Core.Path.{◌≡◌, refl}
use mathlib.Core.Bool.{Bool, false}
use mathlib.Core.List.{List, [], ◌∷◌}
use mathlib.Core.Option.{Option, none, some}
use native.Mathlib.Omega.{arith}
use krot.Base.HashSet.{contains}
use krot.Base.Tests.{Option-cases, if◌then◌else◌, Eq}

abbrev pub Map {ℓ κ} : Type ℓ → Type κ → Type (ℓ ⊔ κ)
Map K V = List (K × V)

abbrev pub map_option {ℓ κ} : {A : Type ℓ} {B : Type κ} → (A → B) → Option A → Option B
map_option f none = none
map_option f (some a) = some (f a)

module _ {ℓ κ} {K : Type ℓ} {V : Type κ} where
  -- The keys of the entries that pass a test.
  unfoldable pub keys_where : (V → Bool) → Map K V → List K
  keys_where p [] = []
  keys_where p ((j, v) ∷ m) = let rest = keys_where p m in if p v then j ∷ rest else rest

module _ {ℓ κ} {K : Type ℓ} {V : Type κ} ⦃e : Eq K⦄ where
  unfoldable pub get : K → Map K V → Option V
  get k [] = none
  get k ((j, v) ∷ m) = if e.beq j k then some v else get k m

  unfoldable pub remove : K → Map K V → Map K V
  remove k [] = []
  remove k ((j, v) ∷ m) = let rest = remove k m in if e.beq j k then rest else (j, v) ∷ rest

  unfoldable pub insert : K → V → Map K V → Map K V
  unfolding remove
  insert k v m = (k, v) ∷ remove k m

  -- `get_mut` followed by a write through the reference.
  unfoldable pub update : K → (V → V) → Map K V → Map K V
  update k f [] = []
  update k f ((j, v) ∷ m) =
      let rest = update k f m in if e.beq j k then (j, f v) ∷ m else (j, v) ∷ rest

  -- No key stands twice.
  abbrev pub IsDistinct : Map K V → Type κ
  IsDistinct [] = Unit {κ}
  IsDistinct ((k, v) ∷ m) = (get k m ≡ none) × IsDistinct m

  pub get-remove :
      (k j : K) (m : Map K V) → get j (remove k m) ≡ (if e.beq k j then none else get j m)
  unfolding get remove
  get-remove k j [] = ground arith
  get-remove k j ((i, w) ∷ m) =
      ground (arith, e.beq_iff i k, e.beq_iff i j, e.beq_iff k j, get-remove k j m)

  pub get-insert :
      (k j : K) (v : V) (m : Map K V)
      → get j (insert k v m) ≡ (if e.beq k j then some v else get j m)
  unfolding get insert
  get-insert k j v m = ground (arith, get-remove k j m)

  pub get-update :
      (k j : K) (f : V → V) (m : Map K V)
      → get j (update k f m) ≡ (if e.beq k j then map_option f (get j m) else get j m)
  unfolding get update
  get-update k j f [] = ground arith
  get-update k j f ((i, w) ∷ m) =
      ground (arith, e.beq_iff i k, e.beq_iff i j, e.beq_iff k j, get-update k j f m)

  pub update-absent : (k : K) (f : V → V) (m : Map K V) → get k m ≡ none → update k f m ≡ m
  unfolding get update
  update-absent k f [] h = refl
  update-absent k f ((i, w) ∷ m) h = ground (arith, update-absent k f m)

  pub remove-IsDistinct : (k : K) (m : Map K V) → IsDistinct m → IsDistinct (remove k m)
  unfolding remove
  remove-IsDistinct k [] d = tt
  remove-IsDistinct k ((i, w) ∷ m) d = ground (arith, remove-IsDistinct k m d.1, get-remove k i m)

  pub insert-IsDistinct : (k : K) (v : V) (m : Map K V) → IsDistinct m → IsDistinct (insert k v m)
  unfolding insert
  insert-IsDistinct k v m d =
      (rw (get-remove k k m, (e.beq_iff k k).1 refl) refl, remove-IsDistinct k m d)

  pub remove-absent : (k : K) (m : Map K V) → get k m ≡ none → remove k m ≡ m
  unfolding get remove
  remove-absent k [] h = refl
  remove-absent k ((i, w) ∷ m) h = ground (arith, remove-absent k m)

  pub update-IsDistinct :
      (k : K) (f : V → V) (m : Map K V) → IsDistinct m → IsDistinct (update k f m)
  unfolding update get
  update-IsDistinct k f [] d = tt
  update-IsDistinct k f ((i, w) ∷ m) d =
      ground (arith, update-IsDistinct k f m d.1, get-update k i f m)

-- What a test says of an entry that may be missing, and the entries that pass it.
abbrev pub test_option {ℓ} : {V : Type ℓ} → (V → Bool) → Option V → Bool
test_option p none = false
test_option p (some v) = p v

abbrev pub filter_option {ℓ} : {V : Type ℓ} → (V → Bool) → Option V → Option V
filter_option p none = none
filter_option p (some v) = if p v then some v else none

module _ {ℓ κ} {K : Type ℓ} {V : Type κ} ⦃e : Eq K⦄ where
  -- `k` is among the keys that pass exactly when its entry passes.
  pub contains-keys_where :
      (p : V → Bool) (k : K) (m : Map K V)
      → IsDistinct m
      → contains k (keys_where p m) ≡ test_option p (get k m)
  unfolding contains keys_where get
  contains-keys_where p k [] d = refl
  contains-keys_where p k ((j, v) ∷ m) d =
      ground (arith, e.beq_iff j k, contains-keys_where p k m d.1, Option-cases (get j m), d.0)
