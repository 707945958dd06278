-- ===== src/Prelude/Eq.antt =====
-- Equality tests as an interface: the keys of the program's maps are numbers and peer ids.
use Prim.Native.Nat.{ℕ}
use mathlib.Core.Path.{◌≡◌, refl}
use mathlib.Core.Logic.{◌↔◌}
use mathlib.Core.Bool.{Bool, true, false, ◌&&◌}
use mathlib.Core.List.{List, [], ◌∷◌}
use native.Mathlib.Omega.{arith}
use bentorrent.Prelude.Tests.{◌==◌, ==_iff}

pub record Eq {ℓ} (A : Type ℓ) : Type ℓ where
  pub beq : A → A → Bool
  pub beq_iff : (a b : A) → (beq a b ≡ true) ↔ (a ≡ b)

instance abbrev pub nat_eq : Eq ℕ
nat_eq = record { beq = ◌==◌; beq_iff = ==_iff }

module _ {ℓ} {A : Type ℓ} (e : Eq A) where
  abbrev pub list_beq : List A → List A → Bool
  list_beq [] [] = true
  list_beq (x ∷ xs) (y ∷ ys) = e.beq x y && list_beq xs ys
  list_beq _ _ = false

  list_beq-true : (xs : List A) → list_beq xs xs ≡ true
  list_beq-true [] = refl
  list_beq-true (x ∷ xs) = ground (arith, (e.beq_iff x x).1 refl, list_beq-true xs)

  eq_of_list_beq : (xs ys : List A) → list_beq xs ys ≡ true → xs ≡ ys
  eq_of_list_beq [] [] h = refl
  eq_of_list_beq [] (y ∷ ys) h = cc
  eq_of_list_beq (x ∷ xs) [] h = cc
  eq_of_list_beq (x ∷ xs) (y ∷ ys) h = ground (arith, (e.beq_iff x y).0, eq_of_list_beq xs ys)

  pub list_beq_iff : (xs ys : List A) → (list_beq xs ys ≡ true) ↔ (xs ≡ ys)
  list_beq_iff xs ys = (eq_of_list_beq xs ys, λ p. ground (arith, list_beq-true xs))

instance abbrev pub list_eq : Eq (List ℕ)
list_eq = record { beq = list_beq nat_eq; beq_iff = list_beq_iff nat_eq }
