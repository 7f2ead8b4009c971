-- ===== src/Blob/Graph/Put/Rounds.antt =====
-- How put ends: within its rounds, and without a defect.
use foldlab.Base.{
  ℕ, zero, suc, ◌+◌, ◌-◌, ◌^◌, ◌≡◌, ◌≤◌, ◌<◌, refl, min, ok, err, Result, some, List, [], ◌∷◌, ◌++◌,
  length, take, drop, get_elem?, arith, Eff, continue, map_err, Bool-cases, Result-cases, ◌⊎◌, inl,
  inr, ◌==◌, ◌||◌, ltb, leb, length-append, length-take, length-drop,
}
use foldlab.Node.{ContentId, CasError, max_uint32}
use foldlab.Blob.{chunk_size, max_uint64}
use foldlab.Blob.Geometry.{pow2_below-largest}
use foldlab.Blob.Graph.{
  CasStoreShape, BlobError, cas_error, graph_error, graph_format_error, missing_leaf_defect,
  out_of_rounds, format_error, unsupported_recipe, range_error, materialization_error,
  admit_blob_leaf, parent_node, blob_node, blob_leaf, chunk_data_tag,
}
use foldlab.Blob.Graph.Write.{leaf_at, join_halves, build_tree, manifest_node, finalize_blob_graph}
use foldlab.Blob.Graph.Put.{PutState, as_format, admit_pending, fill, feed, feed_parts, flush, put}

-- How the steps of put end: with an answer, or with an error of the error channel of the source.
abbrev pub EndsIn : {A : Type 0} → (BlobError → Type 0) → Result BlobError A → Type 0
EndsIn P (ok a) = Unit
EndsIn P (err x) = P x

-- The errors of admitBlobLeaf and finalizeBlobGraph: of the store, or a malformed graph.
abbrev IsGraphError : BlobError → Type 0
IsGraphError (cas_error x) = Unit
IsGraphError (graph_error reason) = Unit
IsGraphError (format_error reason id) = ⊥
IsGraphError (unsupported_recipe id recipe) = ⊥
IsGraphError (range_error offset size total) = ⊥
IsGraphError (materialization_error total) = ⊥
IsGraphError (graph_format_error reason) = ⊥
IsGraphError missing_leaf_defect = ⊥
IsGraphError out_of_rounds = ⊥

-- The errors of put: of the store, or a violation of the format.
abbrev pub IsPutError : BlobError → Type 0
IsPutError (cas_error x) = Unit
IsPutError (graph_error reason) = ⊥
IsPutError (format_error reason id) = ⊥
IsPutError (unsupported_recipe id recipe) = ⊥
IsPutError (range_error offset size total) = ⊥
IsPutError (materialization_error total) = ⊥
IsPutError (graph_format_error reason) = Unit
IsPutError missing_leaf_defect = ⊥
IsPutError out_of_rounds = ⊥

as_format-EndsIn :
    {A : Type 0} (r : Result BlobError A)
    → EndsIn IsGraphError r
    → EndsIn IsPutError (map_err as_format r)
unfolding as_format
as_format-EndsIn (ok a) k = tt
as_format-EndsIn (err (graph_error reason)) k = tt
as_format-EndsIn (err (cas_error x)) k = tt
as_format-EndsIn (err (format_error x y)) k = absurd k
as_format-EndsIn (err (unsupported_recipe x y)) k = absurd k
as_format-EndsIn (err (range_error x y z)) k = absurd k
as_format-EndsIn (err (materialization_error x)) k = absurd k
as_format-EndsIn (err (graph_format_error x)) k = absurd k
as_format-EndsIn (err missing_leaf_defect) k = absurd k
as_format-EndsIn (err out_of_rounds) k = absurd k

cas-EndsIn : {A : Type 0} (r : Result CasError A) → EndsIn IsGraphError (map_err cas_error r)
cas-EndsIn (ok a) = tt
cas-EndsIn (err x) = tt

module _ {S : Type 0} (P : BlobError → Type 0) where
  continue-EndsIn :
      {A B : Type 0} (f : A → Eff S BlobError B) (p : Result BlobError A × S)
      → EndsIn P p.0
      → ((a : A) (t : S) → p ≡ (ok a, t) → EndsIn P (f a t).0)
      → EndsIn P (continue p.0 f p.1).0
  continue-EndsIn f (ok a, t) k l = l a t refl
  continue-EndsIn f (err x, t) k l = k

get_elem?-held :
    (leaves : List ContentId) (base : ℕ)
    → base < length leaves
    → (leaf : ContentId) × (get_elem? leaves base ≡ some leaf)
get_elem?-held [] base h = absurd (omega arith)
get_elem?-held (leaf ∷ leaves) zero h = (leaf, refl)
get_elem?-held (leaf ∷ leaves) (suc base) h = get_elem?-held leaves base (omega arith)

module _ {S : Type 0} (store : CasStoreShape S) where
  admit-EndsIn :
      (index total : ℕ) (bytes : List ℕ) (s : S)
      → EndsIn IsGraphError (admit_blob_leaf store index total bytes s).0
  unfolding admit_blob_leaf
  admit-EndsIn index total bytes s = elim (Bool-cases (leb max_uint32 index)) [
    | inl e ↦ rw e tt
    | inr e ↦ elim (Bool-cases (ltb max_uint32 (length bytes))) [
      | inl f ↦ rw (e, f) tt
      | inr f ↦ elim (Bool-cases (ltb max_uint64 (total + length bytes))) [
        | inl g ↦ rw (e, f, g) tt
        | inr g ↦
            rw (e, f, g)
              (continue-EndsIn IsGraphError _ _
                (cas-EndsIn (store.put (blob_node chunk_data_tag bytes []) s).0)
                (λ id t q.
                  continue-EndsIn IsGraphError _ _
                    (cas-EndsIn (store.put (blob_leaf id index (length bytes)) t).0)
                    (λ leaf u q'. tt)))
      ]
    ]
  ]

  admit_pending-EndsIn :
      (bytes : List ℕ) (st : PutState) (s : S)
      → EndsIn IsPutError (admit_pending store bytes st s).0
  unfolding admit_pending
  admit_pending-EndsIn bytes st s =
      continue-EndsIn IsPutError _ _
        (as_format-EndsIn (admit_blob_leaf store (length st.leaves) st.total_bytes bytes s).0
          (admit-EndsIn (length st.leaves) st.total_bytes bytes s))
        (λ leaf t q. tt)

  fill-EndsIn : (st : PutState) (s : S) → EndsIn IsPutError (fill store st s).0
  unfolding fill
  fill-EndsIn st s = elim (Bool-cases (length st.pending == chunk_size)) [
    | inl e ↦ rw e (admit_pending-EndsIn st.pending st s)
    | inr e ↦ rw e tt
  ]

  admit_pending-empty :
      (bytes : List ℕ) (st next : PutState) (s t : S)
      → admit_pending store bytes st s ≡ (ok next, t)
      → length next.pending ≡ 0
  unfolding admit_pending
  admit_pending-empty bytes st next s t h =
      elim (Result-cases (admit_blob_leaf store (length st.leaves) st.total_bytes bytes s).0) [
        | inl (leaf, e) ↦ ground arith
        | inr (x, e) ↦ absurd (ground arith)
      ]

  fill-short :
      (st next : PutState) (s t : S)
      → length st.pending ≤ chunk_size
      → fill store st s ≡ (ok next, t)
      → length next.pending < chunk_size
  unfolding fill
  fill-short st next s t k h = elim (Bool-cases (length st.pending == chunk_size)) [
    | inl e ↦ omega (arith, admit_pending-empty st.pending st next s t (ground arith))
    | inr e ↦ ground arith
  ]

  feed-EndsIn :
      (rounds : ℕ) (rest : List ℕ) (st : PutState) (s : S)
      → length rest ≤ rounds
      → length st.pending < chunk_size
      → EndsIn IsPutError (feed store rounds rest st s).0
        × ((next : PutState) (t : S)
            → feed store rounds rest st s ≡ (ok next, t)
            → length next.pending < chunk_size)
  unfolding feed
  feed-EndsIn zero [] st s k l = (tt, λ next t e. ground arith)
  feed-EndsIn (suc rounds) [] st s k l = (tt, λ next t e. ground arith)
  feed-EndsIn zero (byte ∷ rest) st s k l = absurd (omega arith)
  feed-EndsIn (suc rounds) (byte ∷ rest) st s k l = (
    continue-EndsIn IsPutError _ _ (fill-EndsIn filled s)
        (λ next t q. (feed-EndsIn rounds left next t fewer (short next t q)).0),
    λ next t e.
        after (λ mid u q. (feed-EndsIn rounds left mid u fewer (short mid u q)).1) next t e
          (Result-cases (fill store filled s).0),
  )
    where
      count : ℕ
      count = min (chunk_size - length st.pending) (length (byte ∷ rest))

      filled : PutState
      filled = record st { pending = st.pending ++ take count (byte ∷ rest) }

      left : List ℕ
      left = drop count (byte ∷ rest)

      fewer : length left ≤ rounds
      fewer = omega (arith, length-drop count (byte ∷ rest))

      short :
          (next : PutState) (t : S)
          → fill store filled s ≡ (ok next, t)
          → length next.pending < chunk_size
      short next t q =
          fill-short filled next s t
            (omega (
              arith,
              length-append st.pending (take count (byte ∷ rest)),
              length-take count (byte ∷ rest),
            ))
            q

      after :
          ((mid : PutState) (u : S)
            → fill store filled s ≡ (ok mid, u)
            → (next : PutState) (t : S) → feed store rounds left mid u ≡ (ok next, t)
            → length next.pending < chunk_size)
          → (next : PutState) (t : S) → feed store (suc rounds) (byte ∷ rest) st s ≡ (ok next, t)
          → ((mid : PutState) × ((fill store filled s).0 ≡ ok mid))
            ⊎ ((x : BlobError) × ((fill store filled s).0 ≡ err x))
          → length next.pending < chunk_size
      after loop next t e (inr (x, q)) = absurd (ground arith)
      after loop next t e (inl (mid, q)) =
          let u : S = (fill store filled s).1 in
          let q' : fill store filled s ≡ (ok mid, u) = ground arith in
          loop mid u q' next t (ground arith)

  feed_parts-EndsIn :
      (parts : List (List ℕ)) (st : PutState) (s : S)
      → length st.pending < chunk_size
      → EndsIn IsPutError (feed_parts store parts st s).0
  unfolding feed_parts
  feed_parts-EndsIn [] st s l = tt
  feed_parts-EndsIn (part ∷ parts) st s l =
      let (first, short) = feed-EndsIn (length part) part st s (omega arith) l in
      continue-EndsIn IsPutError _ _ first
        (λ next t q. feed_parts-EndsIn parts next t (short next t q))

  flush-EndsIn : (st : PutState) (s : S) → EndsIn IsPutError (flush store st s).0
  unfolding flush
  flush-EndsIn st s = elim (Bool-cases (ltb 0 (length st.pending) || length st.leaves == 0)) [
    | inl e ↦ rw e (admit_pending-EndsIn st.pending st s)
    | inr e ↦ rw e tt
  ]

  join_halves-EndsIn :
      (build : ℕ → ℕ → Eff S BlobError ContentId) (base count split : ℕ) (s : S)
      → 1 ≤ split
      → split < count
      → ((b c : ℕ) (t : S)
          → 1 ≤ c
          → c < count
          → b + c ≤ base + count
          → EndsIn IsGraphError (build b c t).0)
      → EndsIn IsGraphError (join_halves store build base count (some split) s).0
  unfolding join_halves
  join_halves-EndsIn build base count split s one less k =
      continue-EndsIn IsGraphError _ _ (k base split s one less (omega arith)) (λ left t q.
        continue-EndsIn IsGraphError _ _
          (k (base + split) (count - split) t (omega arith) (omega arith) (omega arith))
          (λ right u q'. cas-EndsIn (store.put (parent_node store left right) u).0))

  build_tree-EndsIn :
      (rounds : ℕ) (leaves : List ContentId) (base count : ℕ) (s : S)
      → 1 ≤ count
      → count ≤ rounds
      → base + count ≤ length leaves
      → EndsIn IsGraphError (build_tree store rounds leaves base count s).0
  unfolding build_tree leaf_at
  build_tree-EndsIn zero leaves base count s one h inside = absurd (omega arith)
  build_tree-EndsIn (suc rounds) leaves base count s one h inside = elim (Bool-cases (count == 1)) [
    | inl e ↦ let (leaf, found) = get_elem?-held leaves base (omega arith) in rw (e, found) tt
    | inr e ↦
        let (k, r, less, above) = pow2_below-largest count (ground arith) in
        rw (e, r)
          (join_halves-EndsIn (build_tree store rounds leaves) base count (2 ^ k) s (omega arith)
            less
            (λ b c t o l i. build_tree-EndsIn rounds leaves b c t o (omega arith) (omega arith)))
  ]

  finalize-EndsIn :
      (leaves : List ContentId) (total : ℕ) (s : S)
      → EndsIn IsGraphError (finalize_blob_graph store leaves total s).0
  unfolding finalize_blob_graph
  finalize-EndsIn leaves total s = elim (Bool-cases (length leaves == 0)) [
    | inl e ↦ rw e tt
    | inr e ↦ elim (Bool-cases (ltb max_uint32 (length leaves))) [
      | inl f ↦ rw (e, f) tt
      | inr f ↦ elim (Bool-cases (ltb max_uint64 total)) [
        | inl g ↦ rw (e, f, g) tt
        | inr g ↦
            rw (e, f, g)
              (continue-EndsIn IsGraphError _ _
                (build_tree-EndsIn (length leaves) leaves 0 (length leaves) s (ground arith)
                  (omega arith) (omega arith))
                (λ root t q.
                  continue-EndsIn IsGraphError _ _
                    (cas-EndsIn (store.put (manifest_node leaves total root) t).0)
                    (λ ref u q'. tt)))
      ]
    ]
  ]

  -- Over any store, a put of any source ends with a reference, with an error of the store, or with a violation
  -- of the format by a malformed graph: the tree never asks for a leaf that is missing, and no loop and no
  -- recursion runs out of the rounds that it is given.
  pub put-EndsIn : (source : List (List ℕ)) (s : S) → EndsIn IsPutError (put store source s).0
  unfolding put
  put-EndsIn source s =
      continue-EndsIn IsPutError _ _ (feed_parts-EndsIn source _ s (omega arith)) (λ fed t q.
        continue-EndsIn IsPutError _ _ (flush-EndsIn fed t) (λ st u q'.
          continue-EndsIn IsPutError _ _
            (as_format-EndsIn (finalize_blob_graph store st.leaves st.total_bytes u).0
              (finalize-EndsIn st.leaves st.total_bytes u))
            (λ graph v q''. tt)))
