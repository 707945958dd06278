-- ===== src/Prelude/Sets.antt =====
-- HashSet<A> as the list of its members, in the order of one iteration over it.
use Prim.Native.Nat.{◌≤◌}
use mathlib.Core.Path.{◌≡◌, refl}
use mathlib.Core.Bool.{Bool, true, false, ◌&&◌, ◌||◌, not}
use mathlib.Core.List.{List, [], ◌∷◌, ◌++◌}
use native.Mathlib.Omega.{arith}
use bentorrent.Prelude.Tests.{if◌then◌else◌}
use bentorrent.Prelude.Lists.{length}
use bentorrent.Prelude.Eq.{Eq}

module _ {ℓ} {A : Type ℓ} ⦃e : Eq A⦄ where
  unfoldable pub contains : A → List A → Bool
  contains a [] = false
  contains a (x ∷ xs) = e.beq x a || contains a xs

  unfoldable pub insert : A → List A → List A
  unfolding contains
  insert a xs = if contains a xs then xs else a ∷ xs

  unfoldable pub remove : A → List A → List A
  remove a [] = []
  remove a (x ∷ xs) = let rest = remove a xs in if e.beq x a then rest else x ∷ rest

  -- The members of `xs` that `p` accepts.
  unfoldable pub select : (A → Bool) → List A → List A
  select p [] = []
  select p (x ∷ xs) = let rest = select p xs in if p x then x ∷ rest else rest

  abbrev pub intersection : List A → List A → List A
  intersection xs ys = select (λ x. contains x ys) xs

  abbrev pub difference : List A → List A → List A
  difference xs ys = select (λ x. not (contains x ys)) xs

  unfoldable pub union : List A → List A → List A
  union xs ys = xs ++ difference ys xs

  -- `collect` into a set.
  unfoldable pub from_list : List A → List A
  from_list [] = []
  from_list (x ∷ xs) = insert x (from_list xs)

  pub beq_self : (a : A) → e.beq a a ≡ true
  beq_self a = (e.beq_iff a a).1 refl

  pub contains-insert :
      (a b : A) (xs : List A) → contains b (insert a xs) ≡ (e.beq a b || contains b xs)
  unfolding insert
  contains-insert a b xs = ground (arith, e.beq_iff a b)

  pub contains-remove :
      (a b : A) (xs : List A) → contains b (remove a xs) ≡ (not (e.beq a b) && contains b xs)
  unfolding contains remove
  contains-remove a b [] = ground arith
  contains-remove a b (x ∷ xs) =
      ground (arith, contains-remove a b xs, e.beq_iff a b, e.beq_iff x a, e.beq_iff x b)

  pub contains-append :
      (a : A) (xs ys : List A) → contains a (xs ++ ys) ≡ (contains a xs || contains a ys)
  unfolding contains
  contains-append a [] ys = refl
  contains-append a (x ∷ xs) ys = ground (arith, contains-append a xs ys)

  -- `p` sees equal members alike, as every function does.
  pub contains-select :
      (p : A → Bool) (a : A) (xs : List A) → contains a (select p xs) ≡ (p a && contains a xs)
  unfolding contains select
  contains-select p a [] = ground arith
  contains-select p a (x ∷ xs) = ground (arith, contains-select p a xs, e.beq_iff x a)

  pub contains-union :
      (a : A) (xs ys : List A) → contains a (union xs ys) ≡ (contains a xs || contains a ys)
  unfolding union
  contains-union a xs ys = ground (
    arith,
    contains-append a xs (difference ys xs),
    contains-select (λ x. not (contains x xs)) a ys,
  )

  pub contains-from_list : (a : A) (xs : List A) → contains a (from_list xs) ≡ contains a xs
  unfolding contains from_list
  contains-from_list a [] = refl
  contains-from_list a (x ∷ xs) =
      ground (arith, contains-insert x a (from_list xs), contains-from_list a xs)

  pub length-remove-le : (a : A) (xs : List A) → length (remove a xs) ≤ length xs
  unfolding remove
  length-remove-le a [] = omega arith
  length-remove-le a (x ∷ xs) = ground (arith, length-remove-le a xs)
