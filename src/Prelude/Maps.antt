-- ===== src/Prelude/Maps.antt =====
-- HashMap<K, V> and BTreeMap<K, V> as the list of their entries.
use bentorrent.Prelude.Tests.{◌==◌, ltb}
use bentorrent.Prelude.Eq.{nat_eq}
use Prim.Native.Nat.{◌<◌, ℕ, ◌+◌, ◌≤◌}
use mathlib.Core.Path.{◌≡◌, refl}
use mathlib.Core.Bool.{Bool, true, false}
use mathlib.Core.Option.{Option, none, some}
use mathlib.Core.List.{List, [], ◌∷◌, map}
use native.Mathlib.Omega.{arith}
use bentorrent.Prelude.Tests.{if◌then◌else◌}
use bentorrent.Prelude.Eq.{Eq}
use bentorrent.Prelude.Sets.{contains}

abbrev pub Map {ℓ κ} : Type ℓ → Type κ → Type (ℓ ⊔ κ)
Map K V = List (K × V)

abbrev pub is_some {ℓ} : {A : Type ℓ} → Option A → Bool
is_some none = false
is_some (some a) = true

abbrev pub size_of {ℓ} : {V : Type ℓ} → (V → ℕ) → Option V → ℕ
size_of size none = 0
size_of size (some v) = size v

module _ {ℓ κ} {K : Type ℓ} {V : Type κ} where
  abbrev pub keys : Map K V → List K
  keys = map (λ e. e.0)

  -- The sum of a measure over the values, `values().map(size).sum()`.
  unfoldable pub sum_values : (V → ℕ) → Map K V → ℕ
  sum_values size [] = 0
  sum_values size ((k, v) ∷ m) = size v + sum_values size m

module _ {ℓ κ} {K : Type ℓ} {V : Type κ} ⦃e : Eq K⦄ where
  unfoldable pub lookup : K → Map K V → Option V
  lookup k [] = none
  lookup k ((j, v) ∷ m) = if e.beq j k then some v else lookup k m

  unfoldable pub insert : K → V → Map K V → Map K V
  insert k v [] = (k, v) ∷ []
  insert k v ((j, w) ∷ m) =
      let rest = insert k v m in if e.beq j k then (j, v) ∷ m else (j, w) ∷ rest

  unfoldable pub remove : K → Map K V → Map K V
  remove k [] = []
  remove k ((j, w) ∷ m) = let rest = remove k m in if e.beq j k then rest else (j, w) ∷ rest

  abbrev pub contains_key : K → Map K V → Bool
  contains_key k m = is_some (lookup k m)

  pub lookup-insert :
      (k j : K) (v : V) (m : Map K V)
      → lookup j (insert k v m) ≡ (if e.beq k j then some v else lookup j m)
  unfolding lookup insert
  lookup-insert k j v [] = refl
  lookup-insert k j v ((i, w) ∷ m) =
      ground (arith, lookup-insert k j v m, e.beq_iff i k, e.beq_iff i j, e.beq_iff k j)

  pub lookup-remove :
      (k j : K) (m : Map K V) → lookup j (remove k m) ≡ (if e.beq k j then none else lookup j m)
  unfolding lookup remove
  lookup-remove k j [] = ground arith
  lookup-remove k j ((i, w) ∷ m) =
      ground (arith, lookup-remove k j m, e.beq_iff i k, e.beq_iff i j, e.beq_iff k j)

  pub contains-keys : (k : K) (m : Map K V) → contains k (keys m) ≡ contains_key k m
  unfolding lookup contains
  contains-keys k [] = refl
  contains-keys k ((j, v) ∷ m) = ground (arith, contains-keys k m)

  pub sum_values-insert :
      (size : V → ℕ) (k : K) (v : V) (m : Map K V)
      → sum_values size (insert k v m) + size_of size (lookup k m) ≡ sum_values size m + size v
  unfolding lookup insert sum_values
  sum_values-insert size k v [] = omega arith
  sum_values-insert size k v ((j, w) ∷ m) = ground (arith, sum_values-insert size k v m)

  pub sum_values-remove-le :
      (size : V → ℕ) (k : K) (m : Map K V) → sum_values size (remove k m) ≤ sum_values size m
  unfolding remove sum_values
  sum_values-remove-le size k [] = omega arith
  sum_values-remove-le size k ((j, w) ∷ m) = ground (arith, sum_values-remove-le size k m)

-- `BTreeMap::insert`, for a map that is iterated over in the order of its keys.
module _ {ℓ} {V : Type ℓ} where
  unfoldable pub tree_insert : ℕ → V → Map ℕ V → Map ℕ V
  tree_insert k v [] = (k, v) ∷ []
  tree_insert k v ((j, w) ∷ m) =
      let rest = tree_insert k v m in
      if k == j then (k, v) ∷ m else if ltb k j then (k, v) ∷ (j, w) ∷ m else (j, w) ∷ rest

  pub lookup-tree_insert :
      (k j : ℕ) (v : V) (m : Map ℕ V)
      → lookup j (tree_insert k v m) ≡ (if k == j then some v else lookup j m)
  unfolding lookup tree_insert
  lookup-tree_insert k j v [] = refl
  lookup-tree_insert k j v ((i, w) ∷ m) = ground (arith, lookup-tree_insert k j v m)

  -- All keys lie above `b`, and ascend.
  abbrev pub KeysAfter : ℕ → Map ℕ V → Type 0
  KeysAfter b [] = Unit {0}
  KeysAfter b ((k, v) ∷ m) = (b < k) × KeysAfter k m

  abbrev pub KeysAscend : Map ℕ V → Type 0
  KeysAscend [] = Unit {0}
  KeysAscend ((k, v) ∷ m) = KeysAfter k m

  KeysAfter-trans : (b c : ℕ) (m : Map ℕ V) → b < c → KeysAfter c m → KeysAfter b m
  KeysAfter-trans b c [] h a = tt
  KeysAfter-trans b c ((k, v) ∷ m) h a = (omega arith, a.1)

  tree_insert-KeysAfter :
      (b k : ℕ) (v : V) (m : Map ℕ V) → b < k → KeysAfter b m → KeysAfter b (tree_insert k v m)
  unfolding tree_insert
  tree_insert-KeysAfter b k v [] h a = (h, tt)
  tree_insert-KeysAfter b k v ((j, w) ∷ m) h a = ground (arith, tree_insert-KeysAfter j k v m)

  pub tree_insert-KeysAscend :
      (k : ℕ) (v : V) (m : Map ℕ V) → KeysAscend m → KeysAscend (tree_insert k v m)
  unfolding tree_insert
  tree_insert-KeysAscend k v [] a = tt
  tree_insert-KeysAscend k v ((j, w) ∷ m) a = ground (arith, tree_insert-KeysAfter j k v m)
