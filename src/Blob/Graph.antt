-- ===== src/Blob/Graph.antt =====
-- The leaves and the tree of a blob: admitBlobLeaf and finalizeBlobGraph of
-- library/effects/src/internal/blobGraph.ts, and loadChunk and loadParent of
-- library/effects/src/cas/Blob.ts, over the store that they are given.
pub mod Chunks
pub mod Write
pub mod Read
pub mod Put
use foldlab.Base.{
  ℕ, zero, suc, ◌+◌, ◌-◌, Bool, Option, none, some, List, [], ◌∷◌, ◌++◌, length, get_elem?, ltb,
  leb, not, ◌||◌, ◌==◌, if◌then◌else◌, Eff, succeed, fail, ◌>>=◌, map_error,
}
use foldlab.Node.{ContentId, CasReference, CasNodeInput, CasError, max_uint32}
use foldlab.Wire.{write_uint32, read_uint32}
use foldlab.Blob.{
  ManifestContent, max_uint64, expected_chunk_length, encode_blob_manifest_payload, pow2_below,
}

abbrev pub chunk_data_tag : ℕ
chunk_data_tag = 8

abbrev pub blob_node_tag : ℕ
blob_node_tag = 9

abbrev pub blob_manifest_tag : ℕ
blob_manifest_tag = 10

-- What a blob asks of its store.
pub record CasStoreShape (S : Type 0) : Type 0 where
  pub load : ContentId → Eff S CasError CasNodeInput
  pub put : CasNodeInput → Eff S CasError ContentId

pub data BlobGraphReason : Type 0 where
  no_chunk leaf_count_field chunk_length_field total_bytes_field : BlobGraphReason

pub data FormatReason : Type 0 where
  parent_shape leaf_shape leaf_geometry chunk_shape wrong_chunk_length manifest_shape
        manifest_payload leaf_count :
      FormatReason

-- The error channel: an error of the store, a violation of the recipe, a malformed graph, a recipe that
-- is not known, a range outside the blob, or too many bytes for one array. `missing_leaf_defect` is the defect
-- that the source dies with, which is not in its error channel. `out_of_rounds` is of the model: a recursion
-- that was given too few rounds.
pub data BlobError : Type 0 where
  cas_error : CasError → BlobError
  graph_error : BlobGraphReason → BlobError
  format_error : FormatReason → ContentId → BlobError
  unsupported_recipe : ContentId → ℕ → BlobError
  range_error : ℕ → ℕ → ℕ → BlobError
  materialization_error : ℕ → BlobError
  graph_format_error : BlobGraphReason → BlobError
  missing_leaf_defect : BlobError
  out_of_rounds : BlobError

-- `node`. Its schema check holds of the arrays, tags and identifiers that it is called on.
abbrev pub blob_node : ℕ → List ℕ → List CasReference → CasNodeInput
blob_node tag payload refs = record {
  kind = record { version = 0; tag = tag };
  payload = payload;
  refs = refs;
}

unfoldable pub leaf_payload : ℕ → ℕ → List ℕ
unfolding write_uint32
leaf_payload index chunk_length = write_uint32 index ++ write_uint32 chunk_length

pub record AdmittedBlobLeaf : Type 0 where
  pub leaf_id : ContentId
  pub total_bytes : ℕ

pub record BlobGraphResult : Type 0 where
  pub blob_ref : ContentId
  pub tree_root : ContentId
  pub total_bytes : ℕ
  pub leaf_count : ℕ

abbrev pub blob_leaf : ContentId → ℕ → ℕ → CasNodeInput
blob_leaf chunk_id index chunk_length =
    blob_node blob_node_tag (leaf_payload index chunk_length)
      (record { id = chunk_id; expected_tag = chunk_data_tag } ∷ [])

module _ {S : Type 0} (store : CasStoreShape S) where
  unfoldable pub admit_blob_leaf : ℕ → ℕ → List ℕ → Eff S BlobError AdmittedBlobLeaf
  admit_blob_leaf index total_bytes bytes =
      if leb max_uint32 index
      then fail (graph_error leaf_count_field)
      else if ltb max_uint32 (length bytes)
      then fail (graph_error chunk_length_field)
      else if ltb max_uint64 (total_bytes + length bytes)
      then fail (graph_error total_bytes_field)
      else do
        chunk_id ← map_error cas_error (store.put (blob_node chunk_data_tag bytes []))
        leaf_id ← map_error cas_error (store.put (blob_leaf chunk_id index (length bytes)))
        succeed (record { leaf_id = leaf_id; total_bytes = total_bytes + length bytes })

  -- The one reference of a leaf, where it is to chunk data.
  leaf_chunk : List CasReference → Option ContentId
  leaf_chunk [] = none
  leaf_chunk (ref ∷ []) = if ref.expected_tag == chunk_data_tag then some ref.id else none
  leaf_chunk (ref ∷ other ∷ refs) = none

  -- The chunk behind a leaf.
  check_chunk : ContentId → ℕ → CasNodeInput → Eff S BlobError (List ℕ)
  check_chunk chunk_id declared_length chunk =
      if not (chunk.kind.tag == chunk_data_tag) || ltb 0 (length chunk.refs)
      then fail (format_error chunk_shape chunk_id)
      else if not (length chunk.payload == declared_length)
      then fail (format_error wrong_chunk_length chunk_id)
      else succeed chunk.payload

  load_declared :
      ManifestContent → ContentId → ℕ → CasNodeInput → Option ContentId → Eff S BlobError (List ℕ)
  unfolding check_chunk read_uint32 expected_chunk_length
  load_declared plan id index leaf none = fail (format_error leaf_shape id)
  load_declared plan id index leaf (some chunk_id) =
      if not (leaf.kind.tag == blob_node_tag) || not (length leaf.payload == 8)
      then fail (format_error leaf_shape id)
      else if not (read_uint32 leaf.payload 0 == index)
          || not (read_uint32 leaf.payload 4 == expected_chunk_length plan index)
      then fail (format_error leaf_geometry id)
      else do
        chunk ← map_error cas_error (store.load chunk_id)
        check_chunk chunk_id (read_uint32 leaf.payload 4) chunk

  unfoldable pub load_chunk : ManifestContent → ContentId → ℕ → Eff S BlobError (List ℕ)
  unfolding load_declared leaf_chunk
  load_chunk plan id index = do
    leaf ← map_error cas_error (store.load id)
    load_declared plan id index leaf (leaf_chunk leaf.refs)

  abbrev pub parent_node : ContentId → ContentId → CasNodeInput
  parent_node left right = blob_node blob_node_tag [] (
      record { id = left; expected_tag = blob_node_tag }
      ∷ record { id = right; expected_tag = blob_node_tag }
      ∷ [])

  -- The two references of a parent, where the node is one.
  parent_refs : List CasReference → Option (ContentId × ContentId)
  parent_refs [] = none
  parent_refs (left ∷ []) = none
  parent_refs (left ∷ right ∷ []) =
      if left.expected_tag == blob_node_tag
      then (if right.expected_tag == blob_node_tag then some (left.id, right.id) else none)
      else none
  parent_refs (left ∷ right ∷ other ∷ refs) = none

  check_parent :
      ContentId
      → CasNodeInput
      → Option (ContentId × ContentId)
      → Eff S BlobError (ContentId × ContentId)
  check_parent id parent none = fail (format_error parent_shape id)
  check_parent id parent (some pair) =
      if not (parent.kind.tag == blob_node_tag) || ltb 0 (length parent.payload)
      then fail (format_error parent_shape id)
      else succeed pair

  unfoldable pub load_parent : ContentId → Eff S BlobError (ContentId × ContentId)
  unfolding check_parent parent_refs
  load_parent id = do
    parent ← map_error cas_error (store.load id)
    check_parent id parent (parent_refs parent.refs)
