-- ===== src/Blob/Geometry.antt =====
-- The shape of a blob: the split of its tree and the lengths of its chunks.
use foldlab.Base.{
  ℕ, zero, suc, ◌+◌, ◌*◌, ◌/◌, ◌^◌, ◌≡◌, ◌≤◌, ◌<◌, ◌⊎◌, refl, sym, ◌∙◌, ok, some, arith, ◌==◌, leb,
  if◌then◌else◌, Bool-cases, inl, inr,
}
use foldlab.Blob.{
  chunk_size, pow2_below_within, double, pow2_below, ManifestContent, expected_leaf_count,
  require_recipe_one, expected_chunk_length,
}

split_within :
    (fuel n : ℕ)
    → n < fuel
    → 2 ≤ n
    → (k : ℕ) × (pow2_below_within fuel n ≡ some (2 ^ k)) × (2 ^ k < n) × (n ≤ 2 * 2 ^ k)
unfolding pow2_below_within double
split_within zero n h two = absurd (omega arith)
split_within (suc fuel) n h two = elim (Bool-cases (leb n 2)) [
  | inl e ↦ (0, ground arith, omega arith, ground arith)
  | inr e ↦
      let (k, r, below, above) = split_within fuel ((n + 1) / 2) (ground arith) (ground arith) in
      (suc k, ground arith, omega arith, omega arith)
]

-- The split of two or more leaves is the largest power of two below their number, and the rounds suffice.
pub pow2_below-largest :
    (n : ℕ) → 2 ≤ n → (k : ℕ) × (pow2_below n ≡ some (2 ^ k)) × (2 ^ k < n) × (n ≤ 2 * 2 ^ k)
unfolding pow2_below
pow2_below-largest n two = split_within (suc n) n (omega arith) two

-- The lengths of the first chunks, added up.
abbrev pub lengths : ManifestContent → ℕ → ℕ
lengths plan zero = 0
lengths plan (suc n) = lengths plan n + expected_chunk_length plan n

full_chunks :
    (plan : ManifestContent) (n : ℕ)
    → n < plan.leaf_count
    → 0 < plan.total_bytes
    → lengths plan n ≡ n * chunk_size
unfolding expected_chunk_length
full_chunks plan zero h pos = refl
full_chunks plan (suc n) h pos = ground (arith, full_chunks plan n)

all_chunks :
    (plan : ManifestContent) (n : ℕ)
    → suc n ≡ plan.leaf_count
    → plan.leaf_count ≡ (plan.total_bytes + 65_535) / 65_536
    → 0 < plan.total_bytes
    → lengths plan (suc n) ≡ plan.total_bytes
unfolding expected_chunk_length
all_chunks plan n h c pos = ground (arith, full_chunks plan n (omega arith) pos)

counted :
    (plan accepted : ManifestContent)
    → require_recipe_one plan ≡ ok accepted
    → (plan.total_bytes ≡ 0) × (plan.leaf_count ≡ 1)
      ⊎ (0 < plan.total_bytes)
        × (plan.leaf_count ≡ (plan.total_bytes + 65_535) / 65_536)
        × (0 < plan.leaf_count)
unfolding require_recipe_one expected_leaf_count
counted plan accepted h = elim (Bool-cases (plan.total_bytes == 0)) [
  | inl e ↦ inl (ground arith, ground arith)
  | inr e ↦ inr (ground arith, ground arith, ground arith)
]

empty_lengths : (plan : ManifestContent) (n : ℕ) → plan.total_bytes ≡ 0 → lengths plan n ≡ 0
unfolding expected_chunk_length
empty_lengths plan zero h = refl
empty_lengths plan (suc n) h = ground (arith, empty_lengths plan n)

total_lengths :
    (plan : ManifestContent) (n : ℕ)
    → n ≡ plan.leaf_count
    → plan.leaf_count ≡ (plan.total_bytes + 65_535) / 65_536
    → 0 < plan.total_bytes
    → 0 < plan.leaf_count
    → lengths plan n ≡ plan.total_bytes
total_lengths plan zero h c pos more = absurd (omega arith)
total_lengths plan (suc n) h c pos more = all_chunks plan n h c pos

-- In a blob whose geometry recipe 1 accepts, the expected lengths of the chunks add up to the bytes of the
-- manifest, and no chunk is longer than the chunk size.
pub require_recipe_one-lengths :
    (plan accepted : ManifestContent)
    → require_recipe_one plan ≡ ok accepted
    → (lengths plan plan.leaf_count ≡ plan.total_bytes)
      × ((index : ℕ) → index < plan.leaf_count → expected_chunk_length plan index ≤ chunk_size)
unfolding expected_chunk_length
require_recipe_one-lengths plan accepted h = elim (counted plan accepted h) [
  | inl (z, one) ↦ (empty_lengths plan plan.leaf_count z ∙ sym z, λ index below. ground arith)
  | inr (pos, c, more) ↦
      (total_lengths plan plan.leaf_count refl c pos more, λ index below. ground arith)
]

-- Where the chunks of an accepted blob start, and where those of a subtree end.
module _ (plan accepted : ManifestContent) (h : require_recipe_one plan ≡ ok accepted) where
  pub lengths_before : (n : ℕ) → n < plan.leaf_count → lengths plan n ≡ n * chunk_size
  lengths_before n below = elim (counted plan accepted h) [
    | inl (z, one) ↦ omega (arith, empty_lengths plan n z)
    | inr (pos, c, more) ↦ full_chunks plan n below pos
  ]

  pub lengths_to :
      (n : ℕ)
      → n ≤ plan.leaf_count
      → lengths plan n ≡ (if n == plan.leaf_count then plan.total_bytes else n * chunk_size)
  lengths_to n below = elim (Bool-cases (n == plan.leaf_count)) [
    | inl e ↦ ground (arith, (require_recipe_one-lengths plan accepted h).0)
    | inr e ↦ ground (arith, lengths_before n)
  ]

  pub require_recipe_one-some : 1 ≤ plan.leaf_count
  require_recipe_one-some = elim (counted plan accepted h) [
    | inl (z, one) ↦ omega arith
    | inr (pos, c, more) ↦ omega arith
  ]
