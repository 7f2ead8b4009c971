-- ===== src/Blob/Graph/Put/Materialized.antt =====
-- A blob that is written from a list of chunks is read back.
use foldlab.Base.{
  ℕ, ◌≡◌, ◌≤◌, refl, ◌∙◌, ok, List, [], ◌∷◌, ◌++◌, length, arith, Bool, Bool-cases, Result-cases,
  inl, inr, ◌==◌, ltb, append-nil, append_assoc,
}
use mathlib.Core.Path.{subst}
use foldlab.Node.{ContentId, HexCodec, max_uint32}
use foldlab.Store.{CasAddress}
use foldlab.Store.Memory.{World}
use foldlab.Blob.Graph.{BlobGraphResult, admit_blob_leaf}
use foldlab.Blob.Graph.Chunks.{memory_store}
use foldlab.Blob.Graph.Write.{admit_chunks, materialize_blob_graph}
use foldlab.Blob.Graph.Put.{PutState, admit_pending}
use foldlab.Blob.Graph.Put.Chunked.{IsChunked, admit-IsChunked}
use foldlab.Blob.Graph.Put.Shapes.{IsShaped}
use foldlab.Blob.Graph.Put.Back.{Finalized-puts, Written-cut}
use foldlab.Blob.Graph.Read.{concat_parts, get}
use foldlab.Blob.Graph.Read.Back.{get-Written}

abbrev settled : List ContentId → ℕ → PutState
settled leaves total = record { leaves = leaves; total_bytes = total; pending = [] }

module _ (hex : HexCodec) (address : CasAddress) (worded : Bool) where
  admit_chunks-IsChunked :
      (chunks done : List (List ℕ)) (leaves after : List ContentId) (total bytes : ℕ) (w v : World)
      → IsChunked hex address worded w (settled leaves total) done
      → admit_chunks (memory_store hex address worded) chunks leaves total w
        ≡ (ok (after, bytes), v)
      → IsChunked hex address worded v (settled after bytes) (done ++ chunks)
  unfolding admit_chunks admit_pending
  admit_chunks-IsChunked [] done leaves after total bytes w v c h =
      let p : leaves ≡ after = cc in
      let q : total ≡ bytes = cc in let r : w ≡ v = cc in rw (← p, ← q, ← r, append-nil done) c
  admit_chunks-IsChunked (chunk ∷ chunks) done leaves after total bytes w v c h =
      elim (Result-cases
        (admit_blob_leaf (memory_store hex address worded) (length leaves) total chunk w).0) [
          | inr (x, e) ↦ absurd (ground arith)
          | inl (leaf, e) ↦
              let u : World =
                (admit_blob_leaf (memory_store hex address worded) (length leaves) total chunk
                  w).1 in
              let more : List ContentId = leaves ++ leaf.leaf_id ∷ [] in
              let step =
                admit-IsChunked hex address worded chunk (settled leaves total)
                  (settled more leaf.total_bytes) done w u c (ground arith) in
              subst (IsChunked hex address worded v (settled after bytes))
                (append_assoc done (chunk ∷ []) chunks)
                (admit_chunks-IsChunked chunks (done ++ chunk ∷ []) more after leaf.total_bytes
                  bytes u v step.0 (ground arith))
        ]

  -- Over the in-memory backend: writing chunks that recipe 1 expects of their bytes, where it answers a
  -- graph, counts the chunks and their bytes, and a get of the reference answers the bytes, whole and in
  -- order, and changes nothing, where they fit one array.
  pub get-materialize_blob_graph :
      (chunks : List (List ℕ)) (graph : BlobGraphResult) (w v : World)
      → IsShaped chunks
      → materialize_blob_graph (memory_store hex address worded) chunks w ≡ (ok graph, v)
      → length (concat_parts chunks) ≤ 0x7fffffff
      → (get (memory_store hex address worded) graph.blob_ref v ≡ (ok (concat_parts chunks), v))
        × (graph.total_bytes ≡ length (concat_parts chunks))
        × (graph.leaf_count ≡ length chunks)
  unfolding materialize_blob_graph concat_parts
  get-materialize_blob_graph chunks graph w v shaped h small =
      elim (Bool-cases (length chunks == 0)) [
        | inl e ↦ absurd (ground arith)
        | inr e ↦ elim (Bool-cases (ltb max_uint32 (length chunks))) [
          | inl f ↦ absurd (ground arith)
          | inr f ↦
              elim (Result-cases (admit_chunks (memory_store hex address worded) chunks [] 0 w).0) [
                | inr (x, a) ↦ absurd (ground arith)
                | inl ((leaves, total), a) ↦
                    let u : World =
                      (admit_chunks (memory_store hex address worded) chunks [] 0 w).1 in
                    let chunked =
                      admit_chunks-IsChunked chunks [] [] leaves 0 total w u
                        (record { counted = refl; total = refl; held = λ i leaf chunk a b. cc })
                        (ground arith) in
                    let f =
                      Finalized-puts hex address worded leaves total graph u v (ground arith) in
                    (
                      get-Written hex address worded v graph.blob_ref (concat_parts chunks)
                          (Written-cut hex address worded (settled leaves total)
                            (concat_parts chunks) graph u v
                            (record {
                              chunks = chunks;
                              chunked = chunked;
                              shaped = shaped;
                              whole = refl;
                            })
                            f)
                          small,
                      f.counted.0 ∙ chunked.total,
                      f.counted.1 ∙ chunked.counted,
                    )
              ]
        ]
      ]
