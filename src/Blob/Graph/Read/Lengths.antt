-- ===== src/Blob/Graph/Read/Lengths.antt =====
-- What a walk reads has the lengths that the manifest declares.
use foldlab.Base.{
  ℕ, zero, suc, ◌+◌, ◌-◌, ◌≡◌, ◌≤◌, sym, ap, ◌∙◌, none, some, List, [], ◌∷◌, ◌++◌, length, ok, ◌<◌,
  ◌^◌, Eff, true, arith, Bool-cases, Result-cases, Option-cases, inl, inr, ◌==◌,
}
use foldlab.Node.{ContentId, CasNodeInput}
use foldlab.Blob.{ManifestContent, expected_chunk_length}
use foldlab.Blob.Geometry.{lengths, pow2_below-largest}
use foldlab.Blob.Graph.{
  CasStoreShape, BlobError, load_chunk, load_declared, check_chunk, leaf_chunk, load_parent,
}
use foldlab.Blob.Graph.Read.{
  ReadPlan, walk, walk_halves, walk_parent, walk_leaf, outside, cut_chunk,
}

-- The bytes of the parts, added up.
abbrev pub total_length : List (List ℕ) → ℕ
total_length [] = 0
total_length (part ∷ parts) = length part + total_length parts

total_length-append :
    (xs ys : List (List ℕ)) → total_length (xs ++ ys) ≡ total_length xs + total_length ys
total_length-append [] ys = omega arith
total_length-append (x ∷ xs) ys = omega (arith, total_length-append xs ys)

module _ {S : Type 0} (store : CasStoreShape S) where
  check_chunk-length :
      (id : ContentId) (declared : ℕ) (chunk : CasNodeInput) (s t : S) (bytes : List ℕ)
      → check_chunk store id declared chunk s ≡ (ok bytes, t)
      → length bytes ≡ declared
  unfolding check_chunk
  check_chunk-length id declared chunk s t bytes h = ground arith

  load_chunk-length :
      (plan : ManifestContent) (id : ContentId) (index : ℕ) (s t : S) (bytes : List ℕ)
      → load_chunk store plan id index s ≡ (ok bytes, t)
      → length bytes ≡ expected_chunk_length plan index
  unfolding load_chunk load_declared
  load_chunk-length plan id index s t bytes h = elim (Result-cases (store.load id s).0) [
    | inr (x, e) ↦ absurd (ground arith)
    | inl (leaf, e) ↦ elim (Option-cases (leaf_chunk store leaf.refs)) [
      | inl f ↦ absurd (ground arith)
      | inr (chunk_id, f) ↦ elim (Result-cases (store.load chunk_id (store.load id s).1).0) [
        | inr (x, g) ↦ absurd (ground arith)
        | inl (chunk, g) ↦ ground (
          arith,
          check_chunk-length chunk_id (expected_chunk_length plan index) chunk
              (store.load chunk_id (store.load id s).1).1 t bytes,
        )
      ]
    ]
  ]

  leaf-length :
      (plan : ReadPlan) (id : ContentId) (base : ℕ) (s t : S) (parts : List (List ℕ))
      → walk_leaf store plan none id base s ≡ (ok parts, t)
      → total_length parts ≡ expected_chunk_length plan.content base
  unfolding walk_leaf cut_chunk
  leaf-length plan id base s t parts h =
      elim (Result-cases (load_chunk store plan.content id base s).0) [
        | inr (x, e) ↦ absurd (ground arith)
        | inl (chunk, e) ↦
            let k : length chunk ≡ expected_chunk_length plan.content base =
              load_chunk-length plan.content id base s (load_chunk store plan.content id base s).1
                chunk (ground arith) in
            let q : chunk ∷ [] ≡ parts = ground arith in sym (ap total_length q) ∙ omega (arith, k)
      ]

  -- The bytes that a walk below `base` and `count` is to read.
  abbrev Spans : ReadPlan → ℕ → ℕ → List (List ℕ) → Type 0
  Spans plan base count parts =
      lengths plan.content base + total_length parts ≡ lengths plan.content (base + count)

  halves-length :
      (plan : ReadPlan) (walk : ContentId → ℕ → ℕ → Eff S BlobError (List (List ℕ)))
      → ((id : ContentId) (base count : ℕ) (s t : S) (parts : List (List ℕ))
          → 1 ≤ count
          → walk id base count s ≡ (ok parts, t)
          → Spans plan base count parts)
      → (pair : ContentId × ContentId) (base count split : ℕ) (s t : S) (parts : List (List ℕ))
      → 1 ≤ split
      → split < count
      → walk_halves store walk pair base count (some split) s ≡ (ok parts, t)
      → Spans plan base count parts
  unfolding walk_halves
  halves-length plan walk k pair base count split s t parts one below h =
      elim (Result-cases (walk pair.0 base split s).0) [
        | inr (x, e) ↦ absurd (ground arith)
        | inl (left, e) ↦
            elim (Result-cases
              (walk pair.1 (base + split) (count - split) (walk pair.0 base split s).1).0) [
                | inr (x, f) ↦ absurd (ground arith)
                | inl (right, f) ↦
                    let l =
                      k pair.0 base split s (walk pair.0 base split s).1 left one (ground arith) in
                    let r =
                      k pair.1 (base + split) (count - split) (walk pair.0 base split s).1
                        (walk pair.1 (base + split) (count - split) (walk pair.0 base split s).1).1
                        right (omega arith) (ground arith) in
                    let q : left ++ right ≡ parts = ground arith in
                    let c : base + split + (count - split) ≡ base + count = omega arith in
                    let c' : lengths plan.content (base + split + (count - split))
                        ≡ lengths plan.content (base + count) =
                      ap (lengths plan.content) c in
                    omega (arith, l, r, c', ap total_length q, total_length-append left right)
              ]
      ]

  next_base : (base count : ℕ) → (count == 1) ≡ true → suc base ≡ base + count
  next_base base count e = ground arith

  -- Over any store, a walk of a subtree that ends with its parts has read as many bytes as the manifest
  -- declares for the chunks from its base on.
  pub walk-lengths :
      (plan : ReadPlan) (rounds : ℕ) (id : ContentId) (base count : ℕ) (s t : S)
      (parts : List (List ℕ))
      → 1 ≤ count
      → walk store rounds plan none id base count s ≡ (ok parts, t)
      → lengths plan.content base + total_length parts ≡ lengths plan.content (base + count)
  unfolding walk walk_parent outside
  walk-lengths plan zero id base count s t parts one h = cc
  walk-lengths plan (suc rounds) id base count s t parts one h = elim (Bool-cases (count == 1)) [
    | inl e ↦
        let k = leaf-length plan id base s t parts (ground arith) in
        let c : lengths plan.content base + expected_chunk_length plan.content base
            ≡ lengths plan.content (base + count) =
          ap (lengths plan.content) (next_base base count e) in
        omega (arith, k, c)
    | inr e ↦
        let (k, r, below, above) = pow2_below-largest count (ground arith) in
        elim (Result-cases (load_parent store id s).0) [
          | inr (x, f) ↦ absurd (ground arith)
          | inl (pair, f) ↦
              halves-length plan (walk store rounds plan none) (walk-lengths plan rounds) pair base
                count (2 ^ k) (load_parent store id s).1 t parts (omega arith) below (ground arith)
        ]
  ]
