-- ===== src/Tests/RangeRuns.antt =====
-- Reading a range of a blob of three bytes, over a store that is a table.
use foldlab.Base.{◌≡◌, refl, ok, [], ◌∷◌, arith, text_eq, Result, err, if◌then◌else◌}
use foldlab.Node.{ContentId, CasNodeInput, CasError, content_not_found}
use foldlab.Blob.{
  ManifestContent, decode_manifest_payload, encode_blob_manifest_payload, require_recipe_one,
  expected_chunk_length,
}
use foldlab.Blob.Graph.{
  CasStoreShape, load_chunk, leaf_payload, blob_node, blob_leaf, blob_manifest_tag, blob_node_tag,
  chunk_data_tag,
}
use foldlab.Blob.Graph.Read.{get, read_range}
use foldlab.Blob.Graph.Read.Pure.{LoadsPure}
use foldlab.Blob.Graph.Read.Ranges.{read_range-get}

abbrev three_manifest : ManifestContent
three_manifest = record { recipe_id = 1; total_bytes = 3; leaf_count = 1 }

abbrev table_node : ContentId → Result CasError CasNodeInput
table_node id =
    if text_eq id (1 ∷ [])
    then ok (
        blob_node blob_manifest_tag (encode_blob_manifest_payload three_manifest)
          (record { id = 2 ∷ []; expected_tag = blob_node_tag } ∷ []))
    else if text_eq id (2 ∷ [])
    then ok (blob_leaf (3 ∷ []) 0 3)
    else if text_eq id (3 ∷ [])
    then ok (blob_node chunk_data_tag (7 ∷ 8 ∷ 9 ∷ []) [])
    else err (content_not_found id)

abbrev table_store : CasStoreShape (Unit {0})
table_store = record {
  load = λ id s. (table_node id, s);
  put = λ node s. (err (content_not_found []), s);
}

table_store-LoadsPure : LoadsPure table_store
table_store-LoadsPure id s = refl

table_get : get table_store (1 ∷ []) tt ≡ (ok (7 ∷ 8 ∷ 9 ∷ []), tt)
unfolding get load_chunk text_eq leaf_payload encode_blob_manifest_payload decode_manifest_payload
    require_recipe_one expected_chunk_length
table_get = refl

read_range-get_example :
    read_range table_store (1 ∷ []) (record { offset = 1; length = 2 }) tt ≡ (ok (8 ∷ 9 ∷ []), tt)
read_range-get_example =
    read_range-get table_store table_store-LoadsPure (1 ∷ []) (record { offset = 1; length = 2 }) tt
      (7 ∷ 8 ∷ 9 ∷ []) table_get (omega arith)
