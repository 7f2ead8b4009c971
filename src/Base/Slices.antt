-- ===== src/Base/Slices.antt =====
-- Slices of joined lists.
use foldlab.Base.Lists.{length, take, drop, slice, length-drop, drop_end}
use Prim.Native.Nat.{ℕ, zero, suc, ◌-◌, ◌≤◌, min}
use mathlib.Core.Path.{◌≡◌, refl, ap, ◌∙◌}
use mathlib.Core.List.{List, [], ◌∷◌, ◌++◌}
use native.Mathlib.Omega.{arith}

less_zero : (n : ℕ) → n - 0 ≡ n
less_zero n = omega arith

zero_less : (n : ℕ) → 0 - n ≡ 0
zero_less n = omega arith

suc_less : (n k : ℕ) → n - k ≡ suc n - suc k
suc_less n k = omega arith

shifted : (from to k : ℕ) → to - from - (k - from) ≡ to - k - (from - k)
shifted from to k = omega arith

no_rest : (from to : ℕ) → to ≤ from → to - from ≡ 0
no_rest from to h = omega arith

module _ {ℓ} {A : Type ℓ} where
  pub take-nil : (n : ℕ) → take {A = A} n [] ≡ []
  take-nil zero = refl
  take-nil (suc n) = refl

  drop-nil : (n : ℕ) → drop {A = A} n [] ≡ []
  drop-nil zero = refl
  drop-nil (suc n) = refl

  pub take-join :
      (n : ℕ) (xs ys : List A) → take n (xs ++ ys) ≡ take n xs ++ take (n - length xs) ys
  take-join n [] ys = rw (take-nil n, less_zero n)
  take-join zero (x ∷ xs) ys = rw (zero_less (suc (length xs)))
  take-join (suc n) (x ∷ xs) ys = ap (λ t. x ∷ t) (take-join n xs ys) ∙ rw (suc_less n (length xs))

  pub drop-join :
      (n : ℕ) (xs ys : List A) → drop n (xs ++ ys) ≡ drop n xs ++ drop (n - length xs) ys
  drop-join n [] ys = rw (drop-nil n, less_zero n)
  drop-join zero (x ∷ xs) ys = rw (zero_less (suc (length xs)))
  drop-join (suc n) (x ∷ xs) ys = drop-join n xs ys ∙ rw (suc_less n (length xs))

  -- A slice of a joined list is the slice of its first part and the shifted slice of its second.
  pub slice-join :
      (xs ys : List A) (from to : ℕ)
      → slice (xs ++ ys) from to ≡ slice xs from to ++ slice ys (from - length xs) (to - length xs)
  slice-join xs ys from to =
      ap (take (to - from)) (drop-join from xs ys)
      ∙ take-join (to - from) (drop from xs) (drop (from - length xs) ys)
      ∙ rw (length-drop from xs, shifted from to (length xs))

  pub slice_behind : (xs : List A) (from to : ℕ) → length xs ≤ from → slice xs from to ≡ []
  slice_behind xs from to h = rw (drop_end from xs h, take-nil (to - from))

  pub slice_empty : (xs : List A) (from to : ℕ) → to ≤ from → slice xs from to ≡ []
  slice_empty xs from to h = ap (λ n. take n (drop from xs)) (no_rest from to h)

  take_enough :
      (n k : ℕ) (xs : List A) → min n (length xs) ≡ min k (length xs) → take n xs ≡ take k xs
  take_enough zero zero xs h = refl
  take_enough zero (suc k) [] h = refl
  take_enough zero (suc k) (x ∷ xs) h = absurd (omega arith)
  take_enough (suc n) zero [] h = refl
  take_enough (suc n) zero (x ∷ xs) h = absurd (omega arith)
  take_enough (suc n) (suc k) [] h = refl
  take_enough (suc n) (suc k) (x ∷ xs) h = ap (λ t. x ∷ t) (take_enough n k xs (omega arith))

  -- An end behind the list is its end.
  pub slice-min :
      (xs : List A) (from to : ℕ) → slice xs from (min to (length xs)) ≡ slice xs from to
  slice-min xs from to =
      take_enough (min to (length xs) - from) (to - from) (drop from xs)
        (omega (arith, length-drop from xs))
