-- ===== src/Prelude/Sorted.antt =====
-- What sorting keeps of a list: a test of all its elements, sums and the length.
use Prim.Native.Nat.{ℕ}
use mathlib.Core.Path.{◌≡◌, refl}
use mathlib.Core.Bool.{Bool, true, ◌&&◌}
use mathlib.Core.List.{List, [], ◌∷◌, ◌++◌}
use native.Mathlib.Omega.{arith}
use atlas_pulse.Prelude.Lists.{all, sum_by, length, sort_insert, sorted}

module _ {A : Type 0} (p : A → Bool) where
  pub all_parts : (xs ys : List A) → all p (xs ++ ys) ≡ true → (all p xs ≡ true) × (all p ys ≡ true)
  all_parts [] ys h = (refl, h)
  all_parts (x ∷ xs) ys h = ground (arith, all_parts xs ys)

  all-sort_insert :
      (le : A → A → Bool) (x : A) (xs : List A) → all p (sort_insert le x xs) ≡ (p x && all p xs)
  unfolding sort_insert
  all-sort_insert le x [] = refl
  all-sort_insert le x (y ∷ ys) = ground (arith, all-sort_insert le x ys)

  pub all-sorted : (le : A → A → Bool) (xs : List A) → all p (sorted le xs) ≡ all p xs
  unfolding sorted
  all-sorted le [] = refl
  all-sorted le (x ∷ xs) = ground (arith, all-sorted le xs, all-sort_insert le x (sorted le xs))

module _ {A : Type 0} (size : A → ℕ) where
  sum_by-sort_insert :
      (le : A → A → Bool) (x : A) (xs : List A)
      → sum_by size (sort_insert le x xs) ≡ sum_by size (x ∷ xs)
  unfolding sort_insert
  sum_by-sort_insert le x [] = refl
  sum_by-sort_insert le x (y ∷ ys) = ground (arith, sum_by-sort_insert le x ys)

  pub sum_by-sorted :
      (le : A → A → Bool) (xs : List A) → sum_by size (sorted le xs) ≡ sum_by size xs
  unfolding sorted
  sum_by-sorted le [] = refl
  sum_by-sorted le (x ∷ xs) =
      ground (arith, sum_by-sorted le xs, sum_by-sort_insert le x (sorted le xs))

module _ {A : Type 0} where
  length-sort_insert :
      (le : A → A → Bool) (x : A) (xs : List A) → length (sort_insert le x xs) ≡ length (x ∷ xs)
  unfolding sort_insert
  length-sort_insert le x [] = refl
  length-sort_insert le x (y ∷ ys) = ground (arith, length-sort_insert le x ys)

  pub length-sorted : (le : A → A → Bool) (xs : List A) → length (sorted le xs) ≡ length xs
  unfolding sorted
  length-sorted le [] = refl
  length-sorted le (x ∷ xs) =
      ground (arith, length-sorted le xs, length-sort_insert le x (sorted le xs))
