-- ===== src/Tests/BlobRuns.antt =====
-- Blobs at concrete inputs.
use foldlab.Base.{ℕ, ◌≡◌, ◌≤◌, ◌<◌, refl, ok, some, inr, true, [], ◌∷◌, arith, text_eq, Eff}
use foldlab.Node.{all_of, is_node_input}
use foldlab.Codec.{
  encode_cas_node, write_nat32, encode_refs, decode_cas_node, read_nat32, read_refs, bytes_equal,
}
use foldlab.Admission.{judge_admission}
use foldlab.Store.{admission_facts, verify_node_bytes}
use foldlab.Store.Memory.{World, empty_world, memory_put, memory_put_outcome}
use foldlab.Blob.{
  ManifestContent, decode_manifest_payload, encode_blob_manifest_payload, require_recipe_one,
  expected_chunk_length, chunk_size,
}
use foldlab.Blob.Manifest.{decode-encode_manifest_payload}
use foldlab.Blob.Geometry.{lengths, require_recipe_one-lengths}
use foldlab.Blob.Graph.{BlobError, AdmittedBlobLeaf, admit_blob_leaf, load_chunk, leaf_payload}
use foldlab.Blob.Graph.Chunks.{memory_store, load_chunk-admit_blob_leaf}
use foldlab.Blob.Graph.Read.{ReadPlan, walk}
use foldlab.Blob.Graph.Read.Lengths.{total_length, walk-lengths}
use foldlab.Base.{none, ◌+◌}
use foldlab.Tests.Hex.{lower_hex}
use foldlab.Tests.Fixtures.{toy_address, toy_id}

-- Two bytes in one chunk, and two chunks.
abbrev small_manifest : ManifestContent
small_manifest = record { recipe_id = 1; total_bytes = 2; leaf_count = 1 }

abbrev large_manifest : ManifestContent
large_manifest = record { recipe_id = 1; total_bytes = 70_000; leaf_count = 2 }

decode-encode_manifest_payload_example :
    decode_manifest_payload (encode_blob_manifest_payload large_manifest) ≡ some large_manifest
decode-encode_manifest_payload_example =
    decode-encode_manifest_payload large_manifest
      (record { recipe = inr refl; total = omega arith; leaves = omega arith })

large_accepted : require_recipe_one large_manifest ≡ ok large_manifest
unfolding require_recipe_one
large_accepted = refl

require_recipe_one-lengths_example :
    (lengths large_manifest 2 ≡ 70_000)
    × ((index : ℕ) → index < 2 → expected_chunk_length large_manifest index ≤ chunk_size)
require_recipe_one-lengths_example =
    require_recipe_one-lengths large_manifest large_manifest large_accepted

abbrev admit_small : Eff World BlobError AdmittedBlobLeaf
admit_small = admit_blob_leaf (memory_store lower_hex toy_address true) 0 0 (1 ∷ 2 ∷ [])

abbrev small_leaf : AdmittedBlobLeaf
small_leaf = record { leaf_id = toy_id []; total_bytes = 2 }

small_admitted : admit_small empty_world ≡ (ok small_leaf, (admit_small empty_world).1)
unfolding admit_blob_leaf memory_put memory_put_outcome is_node_input encode_cas_node write_nat32
    encode_refs decode_cas_node read_nat32 read_refs judge_admission bytes_equal text_eq all_of
    admission_facts leaf_payload verify_node_bytes
small_admitted = refl

small_expected : expected_chunk_length small_manifest 0 ≡ 2
unfolding expected_chunk_length
small_expected = refl

small_loaded :
    load_chunk
      (memory_store lower_hex toy_address true)
      small_manifest
      small_leaf.leaf_id
      0
      (admit_small empty_world).1
    ≡ (ok (1 ∷ 2 ∷ []), (admit_small empty_world).1)
small_loaded =
    load_chunk-admit_blob_leaf lower_hex toy_address true 0 0 (1 ∷ 2 ∷ []) empty_world
      small_manifest small_leaf (admit_small empty_world).1 small_admitted small_expected

abbrev small_plan : ReadPlan
small_plan = record { ref = toy_id []; content = small_manifest; tree_root = small_leaf.leaf_id }

small_walked :
    walk
      (memory_store lower_hex toy_address true)
      1
      small_plan
      none
      small_leaf.leaf_id
      0
      1
      (admit_small empty_world).1
    ≡ (ok ((1 ∷ 2 ∷ []) ∷ []), (admit_small empty_world).1)
unfolding walk
small_walked = rw small_loaded refl

walk-lengths_example :
    lengths small_manifest 0 + total_length ((1 ∷ 2 ∷ []) ∷ []) ≡ lengths small_manifest (0 + 1)
walk-lengths_example =
    walk-lengths (memory_store lower_hex toy_address true) small_plan 1 small_leaf.leaf_id 0 1
      (admit_small empty_world).1 (admit_small empty_world).1 ((1 ∷ 2 ∷ []) ∷ []) (omega arith)
      small_walked
