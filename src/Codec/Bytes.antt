-- ===== src/Codec/Bytes.antt =====
-- The byte comparison decides equality.
use foldlab.Base.{ℕ, ◌≡◌, refl, ap, ◌↔◌, true, List, [], ◌∷◌, length, arith}
use foldlab.Codec.{bytes_equal_loop, bytes_equal}

bytes_equal_loop_iff :
    (xs ys : List ℕ) → length xs ≡ length ys → (bytes_equal_loop xs ys ≡ true) ↔ (xs ≡ ys)
unfolding bytes_equal_loop
bytes_equal_loop_iff [] [] h = ground arith
bytes_equal_loop_iff [] (y ∷ ys) h = absurd (omega arith)
bytes_equal_loop_iff (x ∷ xs) [] h = absurd (omega arith)
bytes_equal_loop_iff (x ∷ xs) (y ∷ ys) h = ground (arith, bytes_equal_loop_iff xs ys)

pub bytes_equal_iff : (xs ys : List ℕ) → (bytes_equal xs ys ≡ true) ↔ (xs ≡ ys)
unfolding bytes_equal
bytes_equal_iff xs ys = (
  λ h. ground (arith, bytes_equal_loop_iff xs ys),
  λ e. ground (
    arith,
    ap (λ (t : List ℕ). length t) e,
    (bytes_equal_loop_iff xs ys (ap (λ (t : List ℕ). length t) e)).1 e,
  ),
)

pub bytes_equal_refl : (xs : List ℕ) → bytes_equal xs xs ≡ true
bytes_equal_refl xs = (bytes_equal_iff xs xs).1 refl
