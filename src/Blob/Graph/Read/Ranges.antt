-- ===== src/Blob/Graph/Read/Ranges.antt =====
-- Reading a range is reading the blob and slicing it.
use foldlab.Base.{
  ℕ, ◌+◌, ◌-◌, ◌*◌, ◌≡◌, ◌≤◌, refl, sym, ap, ◌∙◌, none, List, [], append-nil, length, slice, Result,
  ok, err, arith, false, Bool-cases, Result-cases, inl, inr, ◌==◌, ltb, length-slice,
}
use foldlab.Base.Slices.{slice_empty}
use foldlab.Node.{ContentId}
use foldlab.Blob.{
  chunk_size, ManifestContent, require_recipe_one, GeometryError, unsupported_recipe,
  wrong_leaf_count,
}
use foldlab.Blob.Geometry.{lengths, require_recipe_one-lengths, require_recipe_one-some}
use foldlab.Blob.Graph.{CasStoreShape}
use foldlab.Blob.Graph.Read.{
  ReadPlan, ByteRange, concat_parts, zeros, join_parts, load_plan, geometry, resolve, stream_plan,
  slice_plan, get_plan, get, range_plan, read_range,
}
use foldlab.Blob.Graph.Read.Lengths.{walk-lengths}
use foldlab.Blob.Graph.Read.Pure.{LoadsPure, walk_pure}
use foldlab.Blob.Graph.Read.Slices.{walk-slice, length-concat}

pub join_parts-exact :
    (parts : List (List ℕ)) (total : ℕ)
    → length (concat_parts parts) ≡ total
    → total ≤ 0x7fffffff
    → join_parts parts total ≡ ok (concat_parts parts)
unfolding join_parts
join_parts-exact parts total h small =
    ground (arith, no_zeros (total - length (concat_parts parts)), append-nil (concat_parts parts))
  where
    no_zeros : (n : ℕ) → n ≡ 0 → zeros n ≡ []
    no_zeros n e = rw e refl

from_zero : (n : ℕ) → 0 + n ≡ n
from_zero n = omega arith

from_start : (n : ℕ) → n - 0 * chunk_size ≡ n
from_start n = omega arith

module _ {S : Type 0} (store : CasStoreShape S) (pure : LoadsPure store) where
  load_plan_pure : (ref : ContentId) (s : S) → (load_plan store ref s).1 ≡ s
  unfolding load_plan
  load_plan_pure ref s = elim (Result-cases (store.load ref s).0) [
    | inl (node, e) ↦ ground (arith, pure ref s)
    | inr (x, e) ↦ ground (arith, pure ref s)
  ]

  resolve_pure : (ref : ContentId) (s : S) → (resolve store ref s).1 ≡ s
  unfolding resolve
  resolve_pure ref s = elim (Result-cases (load_plan store ref s).0) [
    | inl (plan, e) ↦ ground (arith, load_plan_pure ref s)
    | inr (x, e) ↦ ground (arith, load_plan_pure ref s)
  ]

  geometry_sound :
      (plan resolved : ReadPlan) (r : Result GeometryError ManifestContent)
      → geometry plan r ≡ ok resolved
      → (plan ≡ resolved) × ((c : ManifestContent) × (r ≡ ok c))
  unfolding geometry
  geometry_sound plan resolved (ok c) h = (ground arith, (c, refl))
  geometry_sound plan resolved (err (unsupported_recipe n)) h = cc
  geometry_sound plan resolved (err (wrong_leaf_count a b)) h = cc

  -- A plan that is resolved is one whose geometry is accepted.
  pub resolve_sound :
      (ref : ContentId) (s t : S) (plan : ReadPlan)
      → resolve store ref s ≡ (ok plan, t)
      → (c : ManifestContent) × (require_recipe_one plan.content ≡ ok c)
  unfolding resolve
  resolve_sound ref s t plan h = elim (Result-cases (load_plan store ref s).0) [
    | inr (x, e) ↦ absurd (ground arith)
    | inl (loaded, e) ↦
        let (i, (c, k)) =
          geometry_sound loaded plan (require_recipe_one loaded.content) (ground arith) in
        (c, ap (λ t. require_recipe_one t.content) (sym i) ∙ k)
  ]

  -- What `get` reads is the parts of the whole walk, as long as the manifest says.
  abbrev Streams : ReadPlan → S → List ℕ → Type 0
  Streams plan s bytes =
      (parts : List (List ℕ)) × (stream_plan store plan s ≡ (ok parts, s))
      × (concat_parts parts ≡ bytes)
      × (length bytes ≡ plan.content.total_bytes)
      × (length bytes ≤ 0x7fffffff)

  stream_pure : (plan : ReadPlan) (s : S) → (stream_plan store plan s).1 ≡ s
  unfolding stream_plan
  stream_pure plan s =
      walk_pure store pure plan.content.leaf_count plan none plan.tree_root 0
        plan.content.leaf_count s

  stream-length :
      (plan : ReadPlan) (accepted : ManifestContent) (s : S) (parts : List (List ℕ))
      → require_recipe_one plan.content ≡ ok accepted
      → stream_plan store plan s ≡ (ok parts, s)
      → length (concat_parts parts) ≡ plan.content.total_bytes
  unfolding stream_plan
  stream-length plan accepted s parts h k = omega (
    arith,
    length-concat parts,
    walk-lengths store plan plan.content.leaf_count plan.tree_root 0 plan.content.leaf_count s s
        parts (require_recipe_one-some plan.content accepted h) k,
    (require_recipe_one-lengths plan.content accepted h).0,
    ap (lengths plan.content) (from_zero plan.content.leaf_count),
  )

  get-Streams :
      (plan : ReadPlan) (accepted : ManifestContent) (s : S) (bytes : List ℕ)
      → require_recipe_one plan.content ≡ ok accepted
      → get_plan store plan s ≡ (ok bytes, s)
      → Streams plan s bytes
  unfolding get_plan
  get-Streams plan accepted s bytes h k =
      elim (Bool-cases (ltb 0x7fffffff plan.content.total_bytes)) [
        | inl b ↦ absurd (ground arith)
        | inr b ↦ elim (Result-cases (stream_plan store plan s).0) [
          | inr (x, e) ↦ absurd (ground arith)
          | inl (parts, e) ↦
              let e' : stream_plan store plan s ≡ (ok parts, s) =
                ground (arith, stream_pure plan s) in
              let l = stream-length plan accepted s parts h e' in
              let small : plan.content.total_bytes ≤ 0x7fffffff = ground arith in
              let j = join_parts-exact parts plan.content.total_bytes l small in
              let q : concat_parts parts ≡ bytes = ground arith in
              let n : length bytes ≡ plan.content.total_bytes = sym (ap length q) ∙ l in
              (parts, e', q, n, omega arith)
        ]
      ]

  slice-Streams :
      (plan : ReadPlan) (accepted : ManifestContent) (range : ByteRange) (s : S) (bytes : List ℕ)
      → require_recipe_one plan.content ≡ ok accepted
      → Streams plan s bytes
      → range.offset + range.length ≤ length bytes
      → (cut : List (List ℕ)) × (slice_plan store plan range s ≡ (ok cut, s))
        × (concat_parts cut ≡ slice bytes range.offset (range.offset + range.length))
  unfolding slice_plan stream_plan concat_parts
  slice-Streams plan accepted range s bytes h (parts, e, q, n, small) below =
      let inside : ltb plan.content.total_bytes (range.offset + range.length) ≡ false =
        ground arith in
      elim (Bool-cases (range.length == 0)) [
        | inl z ↦ (
          [],
          rw (inside, z) refl,
          sym (slice_empty bytes range.offset (range.offset + range.length) (ground arith)),
        )
        | inr z ↦
            let (cut, c, k) =
              walk-slice store pure plan accepted h
                (record { offset = range.offset; end = range.offset + range.length }) s
                plan.content.leaf_count plan.tree_root 0 plan.content.leaf_count parts
                (require_recipe_one-some plan.content accepted h) (omega arith) e in
            let k' : concat_parts cut
                ≡ slice (concat_parts parts) range.offset (range.offset + range.length) =
              k ∙ rw (from_start range.offset, from_start (range.offset + range.length)) refl in
            (
              cut,
              rw (inside, z) c,
              k' ∙ ap (λ t. slice t range.offset (range.offset + range.length)) q,
            )
      ]

  range-Streams :
      (plan : ReadPlan) (accepted : ManifestContent) (range : ByteRange) (s : S) (bytes : List ℕ)
      → require_recipe_one plan.content ≡ ok accepted
      → Streams plan s bytes
      → range.offset + range.length ≤ length bytes
      → range_plan store range plan s
        ≡ (ok (slice bytes range.offset (range.offset + range.length)), s)
  unfolding range_plan
  range-Streams plan accepted range s bytes h k below =
      let (cut, c, q) = slice-Streams plan accepted range s bytes h k below in
      let (parts, e, p, n, small) = k in
      let fits : ltb 0x7fffffff range.length ≡ false = ground arith in
      let l : length (concat_parts cut) ≡ range.length =
        ap length q
        ∙ omega (arith, length-slice range.offset (range.offset + range.length) bytes) in
      let j = join_parts-exact cut range.length l (omega arith) in rw (fits, c, j, q) refl

  -- Over a store whose loads change nothing: where `get` answers the bytes of a blob, `read_range` of a range
  -- within them answers the slice of those bytes, whatever the place of the range in the tree of chunks.
  pub read_range-get :
      (ref : ContentId) (range : ByteRange) (s : S) (bytes : List ℕ)
      → get store ref s ≡ (ok bytes, s)
      → range.offset + range.length ≤ length bytes
      → read_range store ref range s
        ≡ (ok (slice bytes range.offset (range.offset + range.length)), s)
  unfolding get read_range
  read_range-get ref range s bytes h below = elim (Result-cases (resolve store ref s).0) [
    | inr (x, e) ↦ absurd (ground arith)
    | inl (plan, e) ↦
        let e' : resolve store ref s ≡ (ok plan, s) = ground (arith, resolve_pure ref s) in
        let (accepted, a) = resolve_sound ref s s plan e' in
        let g : get_plan store plan s ≡ (ok bytes, s) = ground arith in
        rw e' (
          range-Streams plan accepted range s bytes a (get-Streams plan accepted s bytes a g) below)
  ]
