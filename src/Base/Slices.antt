-- ===== src/Base/Slices.antt =====
-- A front and a back part of an array, and what a write does to them.
use Prim.Native.Nat.{ℕ, zero, suc, ◌≤◌, ◌<◌}
use mathlib.Core.Path.{◌≡◌, refl, ap}
use mathlib.Core.List.{List, [], ◌∷◌, ◌++◌}
use mathlib.Core.Option.{some}
use native.Mathlib.Omega.{arith}
use cpp_the_right_way.Base.Lists.{length, get_elem?, set, take, drop}

module _ {ℓ} {A : Type ℓ} where
  pub take-append-drop : (n : ℕ) (xs : List A) → take n xs ++ drop n xs ≡ xs
  take-append-drop zero xs = refl
  take-append-drop (suc n) [] = refl
  take-append-drop (suc n) (x ∷ xs) = ap (λ l. x ∷ l) (take-append-drop n xs)

  pub take-suc-set :
      (xs : List A) (i : ℕ) (v : A)
      → i < length xs
      → take (suc i) (set xs i v) ≡ take i xs ++ v ∷ []
  take-suc-set [] i v h = absurd (omega arith)
  take-suc-set (x ∷ xs) zero v h = refl
  take-suc-set (x ∷ xs) (suc i) v h = ap (λ l. x ∷ l) (take-suc-set xs i v (omega arith))

  pub take-set_le : (k i : ℕ) (xs : List A) (v : A) → k ≤ i → take k (set xs i v) ≡ take k xs
  take-set_le zero i xs v h = refl
  take-set_le (suc k) i [] v h = refl
  take-set_le (suc k) zero (x ∷ xs) v h = absurd (omega arith)
  take-set_le (suc k) (suc i) (x ∷ xs) v h = ap (λ l. x ∷ l) (take-set_le k i xs v (omega arith))

  pub drop-set_lt : (k i : ℕ) (xs : List A) (v : A) → i < k → drop k (set xs i v) ≡ drop k xs
  drop-set_lt zero i xs v h = absurd (omega arith)
  drop-set_lt (suc k) i [] v h = refl
  drop-set_lt (suc k) zero (x ∷ xs) v h = refl
  drop-set_lt (suc k) (suc i) (x ∷ xs) v h = drop-set_lt k i xs v (omega arith)

  pub drop-set_self :
      (i : ℕ) (xs : List A) (v : A) → i < length xs → drop i (set xs i v) ≡ v ∷ drop (suc i) xs
  drop-set_self i [] v h = absurd (omega arith)
  drop-set_self zero (x ∷ xs) v h = refl
  drop-set_self (suc i) (x ∷ xs) v h = drop-set_self i xs v (omega arith)

  pub get_elem?-drop :
      (n : ℕ) (xs : List A) (y : A) (ys : List A) → drop n xs ≡ y ∷ ys → get_elem? xs n ≡ some y
  get_elem?-drop zero [] y ys h = cc
  get_elem?-drop zero (x ∷ xs) y ys h = cc
  get_elem?-drop (suc n) [] y ys h = cc
  get_elem?-drop (suc n) (x ∷ xs) y ys h = get_elem?-drop n xs y ys h

  pub drop-suc-drop :
      (n : ℕ) (xs : List A) (y : A) (ys : List A) → drop n xs ≡ y ∷ ys → drop (suc n) xs ≡ ys
  drop-suc-drop zero [] y ys h = cc
  drop-suc-drop zero (x ∷ xs) y ys h = cc
  drop-suc-drop (suc n) [] y ys h = cc
  drop-suc-drop (suc n) (x ∷ xs) y ys h = drop-suc-drop n xs y ys h

  pub drop-append_length : (xs ys : List A) → drop (length xs) (xs ++ ys) ≡ ys
  drop-append_length [] ys = refl
  drop-append_length (x ∷ xs) ys = drop-append_length xs ys
