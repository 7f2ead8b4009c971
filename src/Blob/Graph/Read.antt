-- ===== src/Blob/Graph/Read.antt =====
-- library/effects/src/cas/Blob.ts: reading a blob. A stream is the list of its parts, read to the end.
pub mod Lengths
pub mod Pure
pub mod Slices
pub mod Ranges
pub mod Back
pub mod Rounds
use foldlab.Base.{
  ℕ, zero, suc, ◌+◌, ◌-◌, ◌*◌, ◌^◌, max, min, Bool, false, Option, none, some, List, [], ◌∷◌, ◌++◌,
  length, slice, ltb, leb, not, ◌==◌, ◌||◌, if◌then◌else◌, Eff, Result, ok, err, lift, succeed,
  fail, ◌>>=◌, map_error,
}
use foldlab.Node.{ContentId, CasReference, CasNodeInput}
use foldlab.Wire.{read_uint32}
use foldlab.Blob.{
  chunk_size, ManifestContent, pow2_below, decode_manifest_payload, require_recipe_one,
  GeometryError, unsupported_recipe as unknown_recipe, wrong_leaf_count,
}
use foldlab.Blob.Graph.{
  CasStoreShape, BlobError, cas_error, format_error, unsupported_recipe, range_error,
  materialization_error, out_of_rounds, manifest_shape, manifest_payload, leaf_count, blob_node_tag,
  blob_manifest_tag, load_chunk, load_parent,
}

pub record ReadPlan : Type 0 where
  pub ref : ContentId
  pub content : ManifestContent
  pub tree_root : ContentId

pub record SelectedRange : Type 0 where
  pub offset : ℕ
  pub end : ℕ

-- Its two numbers are natural, so the refusal of a negative one has no counterpart.
pub record ByteRange : Type 0 where
  pub offset : ℕ
  pub length : ℕ

abbrev max_materialized_bytes : ℕ
max_materialized_bytes = 0x7fffffff

-- The one reference of a manifest, where it is to a tree.
manifest_root : List CasReference → Option ContentId
manifest_root [] = none
manifest_root (ref ∷ []) = if ref.expected_tag == blob_node_tag then some ref.id else none
manifest_root (ref ∷ other ∷ refs) = none

plan_of : ContentId → List ℕ → ContentId → Option ManifestContent → Result BlobError ReadPlan
plan_of id payload root (some content) =
    ok (record { ref = id; content = content; tree_root = root })
plan_of id payload root none =
    if not (read_uint32 payload 0 == 0 || read_uint32 payload 0 == 1)
    then err (unsupported_recipe id (read_uint32 payload 0))
    else err (format_error manifest_payload id)

check_manifest : ContentId → CasNodeInput → Option ContentId → Result BlobError ReadPlan
unfolding plan_of
check_manifest id node none = err (format_error manifest_shape id)
check_manifest id node (some root) =
    if not (node.kind.tag == blob_manifest_tag)
    then err (format_error manifest_shape id)
    else if not (length node.payload == 16)
    then err (format_error manifest_payload id)
    else plan_of id node.payload root (decode_manifest_payload node.payload)

geometry : ReadPlan → Result GeometryError ManifestContent → Result BlobError ReadPlan
geometry plan (ok content) = ok plan
geometry plan (err (unknown_recipe recipe)) = err (unsupported_recipe plan.ref recipe)
geometry plan (err (wrong_leaf_count expected actual)) = err (format_error leaf_count plan.ref)

-- Whether the subtree lies outside the selected bytes.
outside : ReadPlan → ℕ → ℕ → Option SelectedRange → Bool
outside plan base count none = false
outside plan base count (some selected) =
    leb selected.end (base * chunk_size)
    || leb
        (if base + count == plan.content.leaf_count
          then plan.content.total_bytes
          else (base + count) * chunk_size)
        selected.offset

-- The selected bytes of a chunk.
cut_chunk : ℕ → List ℕ → Option SelectedRange → List (List ℕ)
cut_chunk base chunk none = chunk ∷ []
cut_chunk base chunk (some selected) =
    let start : ℕ = base * chunk_size in
    let from : ℕ = max selected.offset start - start in
    let to : ℕ = min selected.end (start + length chunk) - start in
    if from == to then [] else slice chunk from to ∷ []

-- `join`: the parts in a fresh array of the declared size. A part beyond its end throws in the source,
-- which is the error; what no part covers stays 0.
zeros : ℕ → List ℕ
zeros zero = []
zeros (suc n) = 0 ∷ zeros n

unfoldable pub concat_parts : List (List ℕ) → List ℕ
concat_parts [] = []
concat_parts (part ∷ parts) = part ++ concat_parts parts

pub join_parts : List (List ℕ) → ℕ → Result BlobError (List ℕ)
unfolding zeros concat_parts
join_parts parts total_bytes =
    let bytes : List ℕ = concat_parts parts in
    if ltb (2 ^ 53 - 1) total_bytes
    then err (materialization_error total_bytes)
    else if ltb total_bytes (length bytes)
    then err (materialization_error total_bytes)
    else ok (bytes ++ zeros (total_bytes - length bytes))

module _ {S : Type 0} (store : CasStoreShape S) where
  pub load_plan : ContentId → Eff S BlobError ReadPlan
  unfolding check_manifest manifest_root
  load_plan id = do
    node ← map_error cas_error (store.load id)
    lift (check_manifest id node (manifest_root node.refs))

  walk_halves :
      (ContentId → ℕ → ℕ → Eff S BlobError (List (List ℕ)))
      → ContentId × ContentId
      → ℕ
      → ℕ
      → Option ℕ
      → Eff S BlobError (List (List ℕ))
  walk_halves walk pair base count none = fail out_of_rounds
  walk_halves walk pair base count (some split) = do
    left ← walk pair.0 base split
    right ← walk pair.1 (base + split) (count - split)
    succeed (left ++ right)

  walk_parent :
      (ContentId → ℕ → ℕ → Eff S BlobError (List (List ℕ)))
      → ContentId
      → ℕ
      → ℕ
      → Eff S BlobError (List (List ℕ))
  unfolding walk_halves
  walk_parent walk id base count = do
    pair ← load_parent store id
    walk_halves walk pair base count (pow2_below count)

  walk_leaf : ReadPlan → Option SelectedRange → ContentId → ℕ → Eff S BlobError (List (List ℕ))
  unfolding cut_chunk
  walk_leaf plan selected id base = do
    chunk ← load_chunk store plan.content id base
    succeed (cut_chunk base chunk selected)

  -- `walk`, by the rounds left.
  unfoldable pub walk :
      ℕ → ReadPlan → Option SelectedRange → ContentId → ℕ → ℕ → Eff S BlobError (List (List ℕ))
  unfolding walk_parent walk_leaf outside
  walk zero plan selected id base count = fail out_of_rounds
  walk (suc rounds) plan selected id base count =
      let halves = walk_parent (walk rounds plan selected) id base count in
      if outside plan base count selected
      then succeed []
      else if count == 1
      then walk_leaf plan selected id base
      else halves

  -- `resolve`: the plan, where recipe 1 accepts its geometry.
  pub resolve : ContentId → Eff S BlobError ReadPlan
  unfolding load_plan geometry require_recipe_one
  resolve ref = do plan ← load_plan ref; lift (geometry plan (require_recipe_one plan.content))

  stream_plan : ReadPlan → Eff S BlobError (List (List ℕ))
  unfolding walk
  stream_plan plan = walk plan.content.leaf_count plan none plan.tree_root 0 plan.content.leaf_count

  slice_plan : ReadPlan → ByteRange → Eff S BlobError (List (List ℕ))
  unfolding walk
  slice_plan plan range =
      if ltb plan.content.total_bytes (range.offset + range.length)
      then fail (range_error range.offset range.length plan.content.total_bytes)
      else if range.length == 0
      then succeed []
      else walk plan.content.leaf_count plan
          (some (record { offset = range.offset; end = range.offset + range.length }))
          plan.tree_root 0 plan.content.leaf_count

  get_plan : ReadPlan → Eff S BlobError (List ℕ)
  unfolding stream_plan join_parts
  get_plan plan =
      if ltb max_materialized_bytes plan.content.total_bytes
      then fail (materialization_error plan.content.total_bytes)
      else stream_plan plan >>= λ parts. lift (join_parts parts plan.content.total_bytes)

  unfoldable pub get : ContentId → Eff S BlobError (List ℕ)
  unfolding get_plan resolve
  get ref = do plan ← resolve ref; get_plan plan

  range_plan : ByteRange → ReadPlan → Eff S BlobError (List ℕ)
  unfolding slice_plan join_parts
  range_plan range plan =
      if ltb max_materialized_bytes range.length
      then fail (materialization_error range.length)
      else slice_plan plan range >>= λ parts. lift (join_parts parts range.length)

  unfoldable pub read_range : ContentId → ByteRange → Eff S BlobError (List ℕ)
  unfolding range_plan resolve
  read_range ref range = do plan ← resolve ref; range_plan range plan
