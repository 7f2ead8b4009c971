-- ===== src/Blob/Graph/Put/Chunked.antt =====
-- The loop of put: what it has consumed is the chunks that it admitted, and what is pending.
use foldlab.Base.{
  ℕ, ◌+◌, ◌≡◌, ◌⊎◌, inl, inr, refl, ap, ok, some, List, [], ◌∷◌, ◌++◌, length, get_elem?, arith,
  Bool, Result-cases, length-append,
}
use mathlib.Core.Path.{subst}
use foldlab.Node.{ContentId, HexCodec}
use foldlab.Store.{CasAddress}
use foldlab.Store.Memory.{World}
use foldlab.Blob.Graph.{AdmittedBlobLeaf, admit_blob_leaf}
use foldlab.Blob.Graph.Chunks.{memory_store}
use foldlab.Blob.Graph.Put.{PutState, admit_pending}
use foldlab.Blob.Graph.Put.Held.{Grows, Held, Held-Grows, admit-Held, admit-total}
use foldlab.Blob.Graph.Put.Shapes.{get_elem?-end, get_elem?-below, concat-end}
use foldlab.Blob.Graph.Read.{concat_parts}

module _ (hex : HexCodec) (address : CasAddress) (worded : Bool) where
  -- The leaves are held, each over its chunk.
  pub record IsChunked (w : World) (st : PutState) (chunks : List (List ℕ)) : Type 0 where
    pub counted : length st.leaves ≡ length chunks
    pub total : st.total_bytes ≡ length (concat_parts chunks)
    pub held :
        (i : ℕ) (leaf : ContentId) (chunk : List ℕ)
        → get_elem? st.leaves i ≡ some leaf
        → get_elem? chunks i ≡ some chunk
        → Held hex address worded w leaf i chunk

  pub admit-IsChunked :
      (bytes : List ℕ) (st next : PutState) (chunks : List (List ℕ)) (w v : World)
      → IsChunked w st chunks
      → admit_pending (memory_store hex address worded) bytes st w ≡ (ok next, v)
      → IsChunked v next (chunks ++ bytes ∷ []) × (next.pending ≡ [])
  unfolding admit_pending
  admit-IsChunked bytes st next chunks w v c h =
      elim (Result-cases
        (admit_blob_leaf (memory_store hex address worded) (length st.leaves) st.total_bytes bytes
          w).0) [
            | inr (x, e) ↦ absurd (ground arith)
            | inl (leaf, e) ↦
                let e' : admit_blob_leaf (memory_store hex address worded) (length st.leaves)
                      st.total_bytes bytes w
                    ≡ (ok leaf, v) =
                  ground arith in
                let q : record {
                  leaves = st.leaves ++ leaf.leaf_id ∷ [];
                  total_bytes = leaf.total_bytes;
                  pending = [];
                }
                    ≡ next =
                  ground arith in
                let (g, held) =
                  admit-Held hex address worded (length st.leaves) st.total_bytes bytes leaf w v
                    e' in
                let total =
                  admit-total hex address worded (length st.leaves) st.total_bytes bytes leaf w v
                    e' in
                subst (λ (n : PutState). IsChunked v n (chunks ++ bytes ∷ []) × (n.pending ≡ [])) q
                  (extended leaf g held total, refl)
          ]
    where
      extended :
          (leaf : AdmittedBlobLeaf)
          → Grows hex address worded w v
          → Held hex address worded v leaf.leaf_id (length st.leaves) bytes
          → leaf.total_bytes ≡ st.total_bytes + length bytes
          → IsChunked v
              (record {
                leaves = st.leaves ++ leaf.leaf_id ∷ [];
                total_bytes = leaf.total_bytes;
                pending = [];
              })
              (chunks ++ bytes ∷ [])
      extended leaf g new total = record {
        counted = omega (
          arith,
          c.counted,
          length-append st.leaves (leaf.leaf_id ∷ []),
          length-append chunks (bytes ∷ []),
        );
        total = omega (
          arith,
          total,
          c.total,
          ap length (concat-end chunks bytes),
          length-append (concat_parts chunks) bytes,
        );
        held = λ i id chunk a b.
            each i id chunk (get_elem?-end st.leaves leaf.leaf_id id i a)
              (get_elem?-end chunks bytes chunk i b);
      }
        where
          each :
              (i : ℕ) (id : ContentId) (chunk : List ℕ)
              → (get_elem? st.leaves i ≡ some id) ⊎ ((i ≡ length st.leaves) × (leaf.leaf_id ≡ id))
              → (get_elem? chunks i ≡ some chunk) ⊎ ((i ≡ length chunks) × (bytes ≡ chunk))
              → Held hex address worded v id i chunk
          each i id chunk (inl a) (inl b) =
              Held-Grows hex address worded w v id i chunk g (c.held i id chunk a b)
          each i id chunk (inr (a, p)) (inr (b, q)) = rw (← p, ← q, a) new
          each i id chunk (inl a) (inr (b, q)) =
              absurd (omega (arith, get_elem?-below st.leaves i id a, c.counted))
          each i id chunk (inr (a, p)) (inl b) =
              absurd (omega (arith, get_elem?-below chunks i chunk b, c.counted))
