-- ===== src/Blob/Graph/Write.antt =====
-- library/effects/src/internal/blobGraph.ts: the tree over admitted leaves, and the whole graph of a list
-- of chunks.
use foldlab.Base.{
  ℕ, zero, suc, ◌+◌, ◌-◌, Option, none, some, List, [], ◌∷◌, ◌++◌, length, get_elem?, ltb, ◌==◌,
  if◌then◌else◌, Eff, succeed, fail, ◌>>=◌, map_error,
}
use foldlab.Node.{ContentId, CasNodeInput, max_uint32}
use foldlab.Blob.{max_uint64, pow2_below, encode_blob_manifest_payload}
use foldlab.Blob.Graph.{
  CasStoreShape, BlobError, cas_error, graph_error, out_of_rounds, no_chunk, leaf_count_field,
  total_bytes_field, missing_leaf_defect, BlobGraphResult, admit_blob_leaf, blob_node,
  blob_node_tag, blob_manifest_tag, parent_node,
}

abbrev pub manifest_node : List ContentId → ℕ → ContentId → CasNodeInput
manifest_node leaves total_bytes tree_root =
    blob_node blob_manifest_tag
      (encode_blob_manifest_payload
        (record { recipe_id = 1; total_bytes = total_bytes; leaf_count = length leaves }))
      (record { id = tree_root; expected_tag = blob_node_tag } ∷ [])

module _ {S : Type 0} (store : CasStoreShape S) where
  -- The source dies of a leaf that is missing.
  unfoldable pub leaf_at : Option ContentId → Eff S BlobError ContentId
  leaf_at none = fail missing_leaf_defect
  leaf_at (some leaf) = succeed leaf

  -- A parent over its two halves, which are built from left to right.
  unfoldable pub join_halves :
      (ℕ → ℕ → Eff S BlobError ContentId) → ℕ → ℕ → Option ℕ → Eff S BlobError ContentId
  join_halves build base count none = fail out_of_rounds
  join_halves build base count (some split) = do
    left ← build base split
    right ← build (base + split) (count - split)
    map_error cas_error (store.put (parent_node store left right))

  -- `buildTree`, by the rounds left.
  unfoldable pub build_tree : ℕ → List ContentId → ℕ → ℕ → Eff S BlobError ContentId
  unfolding leaf_at join_halves
  build_tree zero leaves base count = fail out_of_rounds
  build_tree (suc rounds) leaves base count =
      let halves = join_halves (build_tree rounds leaves) base count (pow2_below count) in
      if count == 1 then leaf_at (get_elem? leaves base) else halves

  -- The count is rounds enough, since each half is smaller.
  unfoldable pub finalize_blob_graph : List ContentId → ℕ → Eff S BlobError BlobGraphResult
  unfolding build_tree
  finalize_blob_graph leaves total_bytes =
      if length leaves == 0
      then fail (graph_error no_chunk)
      else if ltb max_uint32 (length leaves)
      then fail (graph_error leaf_count_field)
      else if ltb max_uint64 total_bytes
      then fail (graph_error total_bytes_field)
      else do
        tree_root ← build_tree (length leaves) leaves 0 (length leaves)
        blob_ref ← map_error cas_error (store.put (manifest_node leaves total_bytes tree_root))
        succeed (record {
          blob_ref = blob_ref;
          tree_root = tree_root;
          total_bytes = total_bytes;
          leaf_count = length leaves;
        })

  -- The loop of `materializeBlobGraph` over the chunks.
  unfoldable pub admit_chunks :
      List (List ℕ) → List ContentId → ℕ → Eff S BlobError (List ContentId × ℕ)
  admit_chunks [] leaves total_bytes = succeed (leaves, total_bytes)
  admit_chunks (bytes ∷ chunks) leaves total_bytes = do
    admitted ← admit_blob_leaf store (length leaves) total_bytes bytes
    admit_chunks chunks (leaves ++ admitted.leaf_id ∷ []) admitted.total_bytes

  unfoldable pub materialize_blob_graph : List (List ℕ) → Eff S BlobError BlobGraphResult
  unfolding admit_chunks finalize_blob_graph
  materialize_blob_graph chunks =
      if length chunks == 0
      then fail (graph_error no_chunk)
      else if ltb max_uint32 (length chunks)
      then fail (graph_error leaf_count_field)
      else do admitted ← admit_chunks chunks [] 0; finalize_blob_graph admitted.0 admitted.1
