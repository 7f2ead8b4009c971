-- ===== src/Blob/Graph/Read/Back.antt =====
-- Reading back the tree of a blob over the in-memory store.
use foldlab.Base.{
  ℕ, zero, suc, ◌+◌, ◌-◌, ◌≡◌, ◌≤◌, refl, sym, ap, ◌∙◌, ok, none, some, List, [], ◌∷◌, ◌++◌, length,
  take, drop, get_elem?, arith, Bool, false, inr, ◌==◌, ltb, drop-drop, take_all,
}
use foldlab.Base.Slices.{take-nil}
use foldlab.Node.{ContentId, HexCodec, max_uint32}
use foldlab.Store.{CasAddress}
use foldlab.Store.Memory.{World, memory_load}
use foldlab.Blob.{
  ManifestContent, expected_chunk_length, max_uint64, decode_manifest_payload,
  encode_blob_manifest_payload, require_recipe_one, write_nat64,
}
use foldlab.Blob.Manifest.{decode-encode_manifest_payload}
use foldlab.Wire.{write_uint32}
use foldlab.Blob.Graph.{parent_node, load_parent}
use foldlab.Blob.Graph.Chunks.{memory_store}
use foldlab.Blob.Graph.Write.{manifest_node}
use foldlab.Blob.Graph.Put.Held.{Held, load_chunk-Held, Tree, one, two}
use foldlab.Blob.Graph.Read.{
  ReadPlan, walk, walk_halves, walk_parent, walk_leaf, outside, cut_chunk, concat_parts, load_plan,
  plan_of, check_manifest, manifest_root, resolve, geometry, stream_plan, get_plan, get,
}
use foldlab.Blob.Graph.Read.Ranges.{join_parts-exact}

take-first :
    {A : Type 0} (xs : List A) (i : ℕ) (x : A)
    → get_elem? xs i ≡ some x
    → take 1 (drop i xs) ≡ x ∷ []
take-first [] i x h = cc
take-first (y ∷ xs) zero x h = ap (λ z. z ∷ []) (cc)
take-first (y ∷ xs) (suc i) x h = take-first xs i x h

take-more : {A : Type 0} (n m : ℕ) (xs : List A) → take n xs ++ take m (drop n xs) ≡ take (n + m) xs
take-more zero m xs = ap (λ k. take k xs) (from_zero m)
  where
    from_zero : (m : ℕ) → m ≡ 0 + m
    from_zero m = omega arith
take-more (suc n) m [] = take-nil m ∙ sym (take-nil (suc n + m))
take-more (suc n) m (x ∷ xs) = ap (λ t. x ∷ t) (take-more n m xs) ∙ rw (shift n m)
  where
    shift : (n m : ℕ) → suc n + m ≡ suc (n + m)
    shift n m = omega arith

size : (content : ManifestContent) → length (encode_blob_manifest_payload content) ≡ 16
unfolding encode_blob_manifest_payload write_uint32 write_nat64
size content = refl

module _ (hex : HexCodec) (address : CasAddress) (worded : Bool) (w : World) where
  load_parent-node :
      (id left right : ContentId)
      → memory_load hex address id w
        ≡ (ok (parent_node (memory_store hex address worded) left right), w)
      → load_parent (memory_store hex address worded) id w ≡ (ok (left, right), w)
  unfolding load_parent
  load_parent-node id left right h = ground arith

  module _ (plan : ReadPlan) (leaves : List ContentId) (chunks : List (List ℕ))
      (counted : length leaves ≡ length chunks)
      (held : (i : ℕ) (leaf : ContentId) (chunk : List ℕ)
        → get_elem? leaves i ≡ some leaf
        → get_elem? chunks i ≡ some chunk
        → Held hex address worded w leaf i chunk
          × (expected_chunk_length plan.content i ≡ length chunk)) where
    chunk_at :
        (i : ℕ) (leaf : ContentId)
        → get_elem? leaves i ≡ some leaf
        → (chunk : List ℕ) × (get_elem? chunks i ≡ some chunk)
    chunk_at i leaf h = both leaves chunks i leaf counted h
      where
        both :
            (xs : List ContentId) (ys : List (List ℕ)) (i : ℕ) (x : ContentId)
            → length xs ≡ length ys
            → get_elem? xs i ≡ some x
            → (y : List ℕ) × (get_elem? ys i ≡ some y)
        both [] ys i x l h = cc
        both (x ∷ xs) [] i z l h = absurd (omega arith)
        both (x ∷ xs) (y ∷ ys) zero z l h = (y, refl)
        both (x ∷ xs) (y ∷ ys) (suc i) z l h = both xs ys i z (omega arith) h

    -- A walk of the tree reads the chunks.
    walk-Tree :
        (rounds : ℕ) (id : ContentId) (base count : ℕ)
        → count ≤ rounds
        → Tree hex address worded w leaves id base count
        → walk (memory_store hex address worded) rounds plan none id base count w
          ≡ (ok (take count (drop base chunks)), w)
    unfolding walk walk_parent walk_leaf walk_halves outside cut_chunk
    walk-Tree zero id base count h (one _ e) = absurd (omega arith)
    walk-Tree zero id base count h (two left right _ _ split p o l e s t) = absurd (omega arith)
    walk-Tree (suc rounds) id base count h (one _ e) =
        let (chunk, c) = chunk_at base id e in
        let (k, x) = held base id chunk e c in
        let q = load_chunk-Held hex address worded plan.content w id base chunk k x in
        rw (q, take-first chunks base chunk c) refl
    walk-Tree (suc rounds) id base count h (two left right _ _ split p o l e s t) =
        let a = walk-Tree rounds left base split (omega arith) s in
        let b = walk-Tree rounds right (base + split) (count - split) (omega arith) t in
        let q = load_parent-node id left right e in
        let many : (count == 1) ≡ false = ground arith in
        rw (many, q, p, a, b) (ap (λ parts. (ok parts, w)) joined)
      where
        whole : split + (count - split) ≡ count
        whole = omega arith

        joined :
            take split (drop base chunks) ++ take (count - split) (drop (base + split) chunks)
            ≡ take count (drop base chunks)
        joined =
            ap (λ rest. take split (drop base chunks) ++ take (count - split) rest)
              (sym (drop-drop base split (base + split) chunks refl))
            ∙ take-more split (count - split) (drop base chunks)
            ∙ ap (λ n. take n (drop base chunks)) whole

  -- The manifest of a blob whose geometry holds is resolved.
  resolve-manifest :
      (ref root : ContentId) (leaves : List ContentId) (total : ℕ)
      → memory_load hex address ref w ≡ (ok (manifest_node leaves total root), w)
      → length leaves ≤ max_uint32
      → total ≤ max_uint64
      → require_recipe_one
          (record { recipe_id = 1; total_bytes = total; leaf_count = length leaves })
        ≡ ok (record { recipe_id = 1; total_bytes = total; leaf_count = length leaves })
      → resolve (memory_store hex address worded) ref w ≡ (
        ok (record {
          ref = ref;
          content = record { recipe_id = 1; total_bytes = total; leaf_count = length leaves };
          tree_root = root;
        }),
        w,
      )
  unfolding resolve load_plan check_manifest manifest_root plan_of geometry
  resolve-manifest ref root leaves total h few less accepted =
      rw (h, size content, decoded) (rw accepted refl)
    where
      content : ManifestContent
      content = record { recipe_id = 1; total_bytes = total; leaf_count = length leaves }

      decoded : decode_manifest_payload (encode_blob_manifest_payload content) ≡ some content
      decoded =
          decode-encode_manifest_payload content
            (record { recipe = inr refl; total = less; leaves = few })

  -- What the store holds of a written blob: a manifest whose geometry is accepted, over a tree of its leaves,
  -- whose chunks are as long as the manifest says.
  pub record Written (ref : ContentId) (bytes : List ℕ) : Type 0 where
    pub root : ContentId
    pub leaves : List ContentId
    pub chunks : List (List ℕ)
    pub manifest :
        memory_load hex address ref w ≡ (ok (manifest_node leaves (length bytes) root), w)
    pub few : length leaves ≤ max_uint32
    pub less : length bytes ≤ max_uint64
    pub some_leaf : 1 ≤ length leaves
    pub accepted :
        require_recipe_one
          (record { recipe_id = 1; total_bytes = length bytes; leaf_count = length leaves })
        ≡ ok (record { recipe_id = 1; total_bytes = length bytes; leaf_count = length leaves })
    pub tree : Tree hex address worded w leaves root 0 (length leaves)
    pub counted : length leaves ≡ length chunks
    pub whole : concat_parts chunks ≡ bytes
    pub held :
        (i : ℕ) (leaf : ContentId) (chunk : List ℕ)
        → get_elem? leaves i ≡ some leaf
        → get_elem? chunks i ≡ some chunk
        → Held hex address worded w leaf i chunk
          × (expected_chunk_length
                (record { recipe_id = 1; total_bytes = length bytes; leaf_count = length leaves })
                i
              ≡ length chunk)

  pub get-Written :
      (ref : ContentId) (bytes : List ℕ)
      → Written ref bytes
      → length bytes ≤ 0x7fffffff
      → get (memory_store hex address worded) ref w ≡ (ok bytes, w)
  unfolding get get_plan stream_plan
  get-Written ref bytes d small =
      let plan : ReadPlan = record {
        ref = ref;
        content = record {
          recipe_id = 1;
          total_bytes = length bytes;
          leaf_count = length d.leaves;
        };
        tree_root = d.root;
      } in
      let r =
        resolve-manifest ref d.root d.leaves (length bytes) d.manifest d.few d.less d.accepted in
      let t =
        walk-Tree plan d.leaves d.chunks d.counted d.held (length d.leaves) d.root 0
          (length d.leaves) (omega arith) d.tree in
      let all : take (length d.leaves) (drop 0 d.chunks) ≡ d.chunks =
        take_all (length d.leaves) d.chunks (sym d.counted) in
      let j = join_parts-exact d.chunks (length bytes) (ap length d.whole) small in
      let fits : ltb 0x7fffffff (length bytes) ≡ false = ground arith in
      rw (r, fits, t, all, j) (ap (λ b. (ok b, w)) d.whole)
