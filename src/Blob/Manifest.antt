-- ===== src/Blob/Manifest.antt =====
-- The manifest payload, written and read back.
use foldlab.Base.{
  ℕ, ◌+◌, ◌≡◌, ◌≤◌, ◌⊎◌, refl, ◌∙◌, some, List, [], ◌++◌, length, drop, get_or-drop, arith,
}
use foldlab.Node.{max_uint32}
use foldlab.Wire.{write_uint32, read_uint32}
use foldlab.Wire.Documents.{read_uint32_at}
use foldlab.Blob.{
  max_uint64, write_nat64, write_nat64_loop, read_nat64, read_nat64_loop, ManifestContent,
  encode_blob_manifest_payload, decode_blob_manifest_payload, known_recipe, decode_manifest_payload,
}

-- A manifest that the payload can hold.
pub record IsManifest (m : ManifestContent) : Type 0 where
  pub recipe : (m.recipe_id ≡ 0) ⊎ (m.recipe_id ≡ 1)
  pub total : m.total_bytes ≤ max_uint64
  pub leaves : m.leaf_count ≤ max_uint32

length-write_nat64 : (v : ℕ) → length (write_nat64 v) ≡ 8
unfolding write_nat64 write_nat64_loop
length-write_nat64 v = refl

read_nat64-drop : (off : ℕ) (bs : List ℕ) → read_nat64 bs off ≡ read_nat64 (drop off bs) 0
unfolding read_nat64 read_nat64_loop
read_nat64-drop off bs = omega (
  arith,
  get_or-drop off 0 off bs 0,
  get_or-drop off 1 (off + 1) bs 0,
  get_or-drop off 2 (off + 1 + 1) bs 0,
  get_or-drop off 3 (off + 1 + 1 + 1) bs 0,
  get_or-drop off 4 (off + 1 + 1 + 1 + 1) bs 0,
  get_or-drop off 5 (off + 1 + 1 + 1 + 1 + 1) bs 0,
  get_or-drop off 6 (off + 1 + 1 + 1 + 1 + 1 + 1) bs 0,
  get_or-drop off 7 (off + 1 + 1 + 1 + 1 + 1 + 1 + 1) bs 0,
)

read-write_nat64 :
    (v : ℕ) (rest : List ℕ) → v ≤ max_uint64 → read_nat64 (write_nat64 v ++ rest) 0 ≡ v
unfolding read_nat64 read_nat64_loop write_nat64 write_nat64_loop
read-write_nat64 v rest h = omega arith

-- A manifest of a known recipe within the widths of its fields is read back from its payload.
pub decode-encode_manifest_payload :
    (m : ManifestContent)
    → IsManifest m
    → decode_manifest_payload (encode_blob_manifest_payload m) ≡ some m
unfolding decode_manifest_payload decode_blob_manifest_payload known_recipe
    encode_blob_manifest_payload write_uint32 write_nat64 write_nat64_loop
decode-encode_manifest_payload m h =
    ground (arith, recipe_read, total_read, leaves_read, sized, h.recipe)
  where
    bytes : List ℕ
    bytes = encode_blob_manifest_payload m

    sized : length bytes ≡ 16
    sized = refl

    recipe_read : read_uint32 bytes 0 ≡ m.recipe_id
    recipe_read = read_uint32_at 0 bytes _ m.recipe_id (omega (arith, h.recipe)) refl

    total_read : read_nat64 bytes 4 ≡ m.total_bytes
    total_read =
        read_nat64-drop 4 bytes ∙ read-write_nat64 m.total_bytes (write_uint32 m.leaf_count) h.total

    leaves_read : read_uint32 bytes 12 ≡ m.leaf_count
    leaves_read = read_uint32_at 12 bytes [] m.leaf_count h.leaves refl
