-- ===== src/Blob/Graph/Read/Pure.antt =====
-- Reads over a store whose loads change nothing.
use foldlab.Base.{
  ℕ, zero, suc, ◌+◌, ◌-◌, ◌≡◌, refl, Option, none, some, List, Eff, arith, Bool-cases, Result-cases,
  inl, inr, ◌==◌,
}
use foldlab.Node.{ContentId, CasNodeInput}
use foldlab.Blob.{ManifestContent, expected_chunk_length, pow2_below}
use foldlab.Blob.Graph.{
  CasStoreShape, BlobError, load_chunk, load_declared, check_chunk, leaf_chunk, load_parent,
}
use foldlab.Blob.Graph.Read.{
  ReadPlan, SelectedRange, walk, walk_halves, walk_parent, walk_leaf, outside,
}

-- Loading leaves the world as it is.
abbrev pub LoadsPure : {S : Type 0} → CasStoreShape S → Type 0
LoadsPure {S} store = (id : ContentId) (s : S) → (store.load id s).1 ≡ s

module _ {S : Type 0} (store : CasStoreShape S) (pure : LoadsPure store) where
  check_chunk_pure :
      (id : ContentId) (declared : ℕ) (chunk : CasNodeInput) (s : S)
      → (check_chunk store id declared chunk s).1 ≡ s
  unfolding check_chunk
  check_chunk_pure id declared chunk s = ground arith

  declared_pure :
      (plan : ManifestContent) (id : ContentId) (index : ℕ) (leaf : CasNodeInput)
      (chunk : Option ContentId) (s : S)
      → (load_declared store plan id index leaf chunk s).1 ≡ s
  unfolding load_declared
  declared_pure plan id index leaf none s = refl
  declared_pure plan id index leaf (some chunk_id) s =
      elim (Result-cases (store.load chunk_id s).0) [
        | inl (chunk, e) ↦ ground (
          arith,
          pure chunk_id s,
          check_chunk_pure chunk_id (expected_chunk_length plan index) chunk s,
        )
        | inr (x, e) ↦ ground (arith, pure chunk_id s)
      ]

  pub load_chunk_pure :
      (plan : ManifestContent) (id : ContentId) (index : ℕ) (s : S)
      → (load_chunk store plan id index s).1 ≡ s
  unfolding load_chunk
  load_chunk_pure plan id index s = elim (Result-cases (store.load id s).0) [
    | inl (leaf, e) ↦
        ground (arith, pure id s, declared_pure plan id index leaf (leaf_chunk store leaf.refs) s)
    | inr (x, e) ↦ ground (arith, pure id s)
  ]

  pub load_parent_pure : (id : ContentId) (s : S) → (load_parent store id s).1 ≡ s
  unfolding load_parent
  load_parent_pure id s = elim (Result-cases (store.load id s).0) [
    | inl (parent, e) ↦ ground (arith, pure id s)
    | inr (x, e) ↦ ground (arith, pure id s)
  ]

  halves_pure :
      (walk : ContentId → ℕ → ℕ → Eff S BlobError (List (List ℕ)))
      → ((id : ContentId) (base count : ℕ) (s : S) → (walk id base count s).1 ≡ s)
      → (pair : ContentId × ContentId) (base count : ℕ) (split : Option ℕ) (s : S)
      → (walk_halves store walk pair base count split s).1 ≡ s
  unfolding walk_halves
  halves_pure walk k pair base count none s = refl
  halves_pure walk k pair base count (some split) s =
      elim (Result-cases (walk pair.0 base split s).0) [
        | inr (x, e) ↦ ground (arith, k pair.0 base split s)
        | inl (left, e) ↦ elim (Result-cases (walk pair.1 (base + split) (count - split) s).0) [
          | inr (x, f) ↦
              ground (arith, k pair.0 base split s, k pair.1 (base + split) (count - split) s)
          | inl (right, f) ↦
              ground (arith, k pair.0 base split s, k pair.1 (base + split) (count - split) s)
        ]
      ]

  pub walk_pure :
      (rounds : ℕ) (plan : ReadPlan) (selected : Option SelectedRange) (id : ContentId)
      (base count : ℕ) (s : S)
      → (walk store rounds plan selected id base count s).1 ≡ s
  unfolding walk walk_parent walk_leaf
  walk_pure zero plan selected id base count s = refl
  walk_pure (suc rounds) plan selected id base count s =
      elim (Bool-cases (outside plan base count selected)) [
        | inl o ↦ ground arith
        | inr o ↦ elim (Bool-cases (count == 1)) [
          | inl e ↦ elim (Result-cases (load_chunk store plan.content id base s).0) [
            | inl (chunk, f) ↦ ground (arith, load_chunk_pure plan.content id base s)
            | inr (x, f) ↦ ground (arith, load_chunk_pure plan.content id base s)
          ]
          | inr e ↦ elim (Result-cases (load_parent store id s).0) [
            | inl (pair, f) ↦ ground (
              arith,
              load_parent_pure id s,
              halves_pure (walk store rounds plan selected) (walk_pure rounds plan selected) pair
                  base count (pow2_below count) s,
            )
            | inr (x, f) ↦ ground (arith, load_parent_pure id s)
          ]
        ]
      ]
