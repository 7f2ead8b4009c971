-- ===== src/Blob/Graph/Put/Shapes.antt =====
-- The geometry of a list of chunks that are full but for the last.
use foldlab.Base.{
  ℕ, zero, suc, ◌+◌, ◌*◌, ◌≡◌, ◌≤◌, ◌<◌, ◌⊎◌, inl, inr, refl, sym, ap, ◌∙◌, ok, some, List, [], ◌∷◌,
  ◌++◌, length, get_elem?, arith, false, Bool-cases, ◌==◌, length-append, append-nil,
}
use mathlib.Core.Path.{subst}
use foldlab.Blob.{
  ManifestContent, chunk_size, require_recipe_one, expected_leaf_count, expected_chunk_length,
}
use foldlab.Blob.Graph.Read.{concat_parts}
use foldlab.Blob.Graph.Read.Slices.{concat-append}

pub get_elem?-end :
    {A : Type 0} (xs : List A) (x y : A) (i : ℕ)
    → get_elem? (xs ++ x ∷ []) i ≡ some y
    → (get_elem? xs i ≡ some y) ⊎ ((i ≡ length xs) × (x ≡ y))
get_elem?-end [] x y zero h = inr (refl, cc)
get_elem?-end [] x y (suc i) h = cc
get_elem?-end (z ∷ xs) x y zero h = inl h
get_elem?-end (z ∷ xs) x y (suc i) h = elim (get_elem?-end xs x y i h) [
  | inl e ↦ inl e
  | inr (e, q) ↦ inr (ap suc e, q)
]

pub get_elem?-below :
    {A : Type 0} (xs : List A) (i : ℕ) (x : A) → get_elem? xs i ≡ some x → i < length xs
get_elem?-below [] i x h = cc
get_elem?-below (y ∷ xs) zero x h = omega arith
get_elem?-below (y ∷ xs) (suc i) x h = omega (arith, get_elem?-below xs i x h)

pub concat-end :
    (xs : List (List ℕ)) (x : List ℕ) → concat_parts (xs ++ x ∷ []) ≡ concat_parts xs ++ x
unfolding concat_parts
concat-end xs x = concat-append xs (x ∷ []) ∙ ap (λ t. concat_parts xs ++ t) (append-nil x)

-- Every chunk is full.
abbrev pub AreFull : List (List ℕ) → Type 0
AreFull chunks =
    (i : ℕ) (chunk : List ℕ) → get_elem? chunks i ≡ some chunk → length chunk ≡ chunk_size

pub AreFull-length :
    (chunks : List (List ℕ))
    → AreFull chunks
    → length (concat_parts chunks) ≡ length chunks * chunk_size
unfolding concat_parts
AreFull-length [] h = omega arith
AreFull-length (chunk ∷ chunks) h = omega (
  arith,
  length-append chunk (concat_parts chunks),
  h 0 chunk refl,
  AreFull-length chunks (λ i c e. h (suc i) c e),
)

abbrev pub content_of : ℕ → ℕ → ManifestContent
content_of total leaves = record { recipe_id = 1; total_bytes = total; leaf_count = leaves }

-- The chunks are those that recipe 1 expects of their bytes.
pub record IsShaped (chunks : List (List ℕ)) : Type 0 where
  pub some_chunk : 1 ≤ length chunks
  pub accepted :
      require_recipe_one (content_of (length (concat_parts chunks)) (length chunks))
      ≡ ok (content_of (length (concat_parts chunks)) (length chunks))
  pub expected :
      (i : ℕ) (chunk : List ℕ)
      → get_elem? chunks i ≡ some chunk
      → expected_chunk_length (content_of (length (concat_parts chunks)) (length chunks)) i
        ≡ length chunk

geometry_holds :
    (total leaves : ℕ)
    → 1 ≤ leaves
    → leaves ≡ expected_leaf_count total
    → require_recipe_one (content_of total leaves) ≡ ok (content_of total leaves)
unfolding require_recipe_one
geometry_holds total leaves one e = ground arith

full_count :
    (total leaves : ℕ)
    → 1 ≤ leaves
    → total ≡ leaves * chunk_size
    → leaves ≡ expected_leaf_count total
unfolding expected_leaf_count
full_count total leaves one e =
    let more : (total == 0) ≡ false = ground arith in rw more (omega arith)

last_count :
    (total full last : ℕ)
    → total ≡ full * chunk_size + last
    → last < chunk_size
    → (0 < last) ⊎ (full ≡ 0)
    → full + 1 ≡ expected_leaf_count total
unfolding expected_leaf_count
last_count total full last e small some_last = elim (Bool-cases (total == 0)) [
  | inl z ↦ let nothing : total ≡ 0 = ground arith in rw z (omega arith)
  | inr z ↦
      let more : 1 ≤ total = ground arith in
      elim some_last [ inl o ↦ rw z (omega arith) | inr o ↦ rw z (omega arith) ]
]

full_expected :
    (total leaves i : ℕ)
    → i < leaves
    → total ≡ leaves * chunk_size
    → expected_chunk_length (content_of total leaves) i ≡ chunk_size
unfolding expected_chunk_length
full_expected total leaves i below e = ground arith

last_expected :
    (total full last : ℕ)
    → total ≡ full * chunk_size + last
    → last < chunk_size
    → expected_chunk_length (content_of total (full + 1)) full ≡ last
unfolding expected_chunk_length
last_expected total full last e small = ground arith

before_expected :
    (total full last i : ℕ)
    → total ≡ full * chunk_size + last
    → i < full
    → expected_chunk_length (content_of total (full + 1)) i ≡ chunk_size
unfolding expected_chunk_length
before_expected total full last i e below = ground arith

pub full-IsShaped : (chunks : List (List ℕ)) → AreFull chunks → 1 ≤ length chunks → IsShaped chunks
full-IsShaped chunks full one = record {
  some_chunk = one;
  accepted =
      geometry_holds (length (concat_parts chunks)) (length chunks) one (
        full_count (length (concat_parts chunks)) (length chunks) one (AreFull-length chunks full));
  expected = λ i chunk e.
      full_expected (length (concat_parts chunks)) (length chunks) i
        (get_elem?-below chunks i chunk e) (AreFull-length chunks full)
      ∙ sym (full i chunk e);
}

pub last-IsShaped :
    (chunks : List (List ℕ)) (last : List ℕ)
    → AreFull chunks
    → length last < chunk_size
    → (0 < length last) ⊎ (length chunks ≡ 0)
    → IsShaped (chunks ++ last ∷ [])
last-IsShaped chunks last full small some_last = record {
  some_chunk = omega (arith, count);
  accepted =
      subst (λ n. require_recipe_one (content_of total n) ≡ ok (content_of total n)) (sym count)
        (geometry_holds total (length chunks + 1) (omega arith)
          (last_count total (length chunks) (length last) size small some_last));
  expected = λ i chunk e.
      subst (λ n. expected_chunk_length (content_of total n) i ≡ length chunk) (sym count)
        (each i chunk (get_elem?-end chunks last chunk i e));
}
  where
    total : ℕ
    total = length (concat_parts (chunks ++ last ∷ []))

    count : length (chunks ++ last ∷ []) ≡ length chunks + 1
    count = omega (arith, length-append chunks (last ∷ []))

    size : total ≡ length chunks * chunk_size + length last
    size =
        ap length (concat-end chunks last)
        ∙ omega (arith, length-append (concat_parts chunks) last, AreFull-length chunks full)

    each :
        (i : ℕ) (chunk : List ℕ)
        → (get_elem? chunks i ≡ some chunk) ⊎ ((i ≡ length chunks) × (last ≡ chunk))
        → expected_chunk_length (content_of total (length chunks + 1)) i ≡ length chunk
    each i chunk (inl e) =
        before_expected total (length chunks) (length last) i size
          (get_elem?-below chunks i chunk e)
        ∙ sym (full i chunk e)
    each i chunk (inr (e, q)) =
        rw e (last_expected total (length chunks) (length last) size small) ∙ ap length q
