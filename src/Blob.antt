-- ===== src/Blob.antt =====
-- library/effects/src/internal/blobGraph.ts and the manifest and geometry of
-- library/effects/src/cas/Blob.ts: blobs as graphs of nodes.
pub mod Manifest
pub mod Geometry
pub mod Graph
use foldlab.Base.{
  ℕ, zero, suc, ◌+◌, ◌-◌, ◌*◌, ◌/◌, ◌%◌, ◌^◌, Option, none, some, Option, List, [], ◌∷◌, ◌++◌,
  length, get_or, ltb, leb, not, ◌||◌, ◌==◌, if◌then◌else◌, Result, ok, err,
}
use foldlab.Wire.{write_uint32, read_uint32}
use foldlab.Node.{ContentId, max_uint32}

abbrev pub chunk_size : ℕ
chunk_size = 65_536

abbrev pub max_uint64 : ℕ
max_uint64 = 2 ^ 64 - 1

double : Option ℕ → Option ℕ
double none = none
double (some n) = some (2 * n)

-- `pow2Below`, by the rounds left; `none` is a lack of rounds.
pow2_below_within : ℕ → ℕ → Option ℕ
unfolding double
pow2_below_within zero n = none
pow2_below_within (suc fuel) n =
    let rest = pow2_below_within fuel ((n + 1) / 2) in if leb n 2 then some 1 else double rest

pub pow2_below : ℕ → Option ℕ
unfolding pow2_below_within
pow2_below n = pow2_below_within (suc n) n

-- The loop of `writeNat64`, from the last byte to the first, before the bytes written so far.
write_nat64_loop : ℕ → ℕ → List ℕ → List ℕ
write_nat64_loop zero remaining written = written
write_nat64_loop (suc rounds) remaining written =
    write_nat64_loop rounds (remaining / 256) (remaining % 256 ∷ written)

unfoldable pub write_nat64 : ℕ → List ℕ
unfolding write_nat64_loop
write_nat64 value = write_nat64_loop 8 value []

-- The loop of `readNat64`. The shift leaves eight zero bits, so that the `or` with a byte adds it.
read_nat64_loop : ℕ → List ℕ → ℕ → ℕ → ℕ
read_nat64_loop zero source offset value = value
read_nat64_loop (suc rounds) source offset value =
    read_nat64_loop rounds source (offset + 1) (value * 256 + get_or source offset 0)

unfoldable pub read_nat64 : List ℕ → ℕ → ℕ
unfolding read_nat64_loop
read_nat64 source offset = read_nat64_loop 8 source offset 0

pub record ManifestContent : Type 0 where
  pub recipe_id : ℕ
  pub total_bytes : ℕ
  pub leaf_count : ℕ

-- `BlobManifestPayload`: the encoding of a manifest within its schema. `writeNat32` and `readNat32`
-- are those of the wire documents.
unfoldable pub encode_blob_manifest_payload : ManifestContent → List ℕ
unfolding write_nat64 write_uint32
encode_blob_manifest_payload manifest =
    write_uint32 manifest.recipe_id
    ++ (write_nat64 manifest.total_bytes ++ write_uint32 manifest.leaf_count)

unfoldable pub decode_blob_manifest_payload : List ℕ → Option ManifestContent
unfolding read_nat64 read_uint32
decode_blob_manifest_payload bytes =
    if not (length bytes == 16)
    then none
    else some (record {
      recipe_id = read_uint32 bytes 0;
      total_bytes = read_nat64 bytes 4;
      leaf_count = read_uint32 bytes 12;
    })

known_recipe : Option ManifestContent → Option ManifestContent
known_recipe none = none
known_recipe (some manifest) =
    if manifest.recipe_id == 0 || manifest.recipe_id == 1 then some manifest else none

-- Recipes 0 and 1 are the known ones.
unfoldable pub decode_manifest_payload : List ℕ → Option ManifestContent
unfolding known_recipe decode_blob_manifest_payload
decode_manifest_payload bytes = known_recipe (decode_blob_manifest_payload bytes)

unfoldable pub expected_leaf_count : ℕ → ℕ
expected_leaf_count total_bytes =
    if total_bytes == 0 then 1 else (total_bytes + chunk_size - 1) / chunk_size

pub data GeometryError : Type 0 where
  unsupported_recipe : ℕ → GeometryError
  wrong_leaf_count : ℕ → ℕ → GeometryError

-- `requireRecipeOne`. The reference and the root of the plan play no part.
unfoldable pub require_recipe_one : ManifestContent → Result GeometryError ManifestContent
unfolding expected_leaf_count
require_recipe_one plan =
    if not (plan.recipe_id == 1)
    then err (unsupported_recipe plan.recipe_id)
    else if plan.leaf_count == 0 || not (plan.leaf_count == expected_leaf_count plan.total_bytes)
    then err (wrong_leaf_count (expected_leaf_count plan.total_bytes) plan.leaf_count)
    else ok plan

-- The length of the chunk at an index below the leaf count. Where the geometry holds, the last chunk
-- starts within the blob.
unfoldable pub expected_chunk_length : ManifestContent → ℕ → ℕ
expected_chunk_length plan index =
    if plan.total_bytes == 0
    then 0
    else if ltb (index + 1) plan.leaf_count
    then chunk_size
    else plan.total_bytes - index * chunk_size
