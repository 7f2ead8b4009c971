-- ===== src/Blob/Graph/Put/Trees.antt =====
-- The tree that is built over the leaves of a blob, and the walk that reads it back.
use foldlab.Base.{
  ℕ, zero, suc, ◌+◌, ◌-◌, ◌^◌, ◌≡◌, ◌≤◌, ◌<◌, refl, ◌∙◌, ok, Option, none, some, List, get_elem?,
  Eff, ◌>>=◌, arith, Bool, Bool-cases, inl, inr, ◌==◌, map_error, >>=-eq-ok, map_error-eq-ok,
}
use mathlib.Core.Path.{subst}
use foldlab.Node.{ContentId, HexCodec}
use foldlab.Store.{CasAddress}
use foldlab.Store.Memory.{World, memory_put}
use foldlab.Store.Memory.Put.{load-memory_put}
use foldlab.Blob.{pow2_below}
use foldlab.Blob.Geometry.{pow2_below-largest}
use foldlab.Blob.Graph.{BlobError, parent_node, cas_error}
use foldlab.Blob.Graph.Chunks.{memory_store}
use foldlab.Blob.Graph.Write.{build_tree, join_halves, leaf_at}
use foldlab.Blob.Graph.Put.Held.{Grows, put-Grows, Tree, one, two, Tree-Grows}

module _ (hex : HexCodec) (address : CasAddress) (worded : Bool) where
  built :
      (build : ℕ → ℕ → Eff World BlobError ContentId) (leaves : List ContentId) (base count : ℕ)
      (split : ℕ) (id : ContentId) (w v : World)
      → ((b c : ℕ) (id : ContentId) (w v : World)
          → 1 ≤ c
          → build b c w ≡ (ok id, v)
          → Grows hex address worded w v × Tree hex address worded v leaves id b c)
      → pow2_below count ≡ some split
      → 1 ≤ split
      → split < count
      → join_halves (memory_store hex address worded) build base count (some split) w ≡ (ok id, v)
      → Grows hex address worded w v × Tree hex address worded v leaves id base count
  unfolding join_halves
  built build leaves base count split id w v k p o l h =
      let (left, t, a, h') = >>=-eq-ok right_half (build base split) w h in
      let (right, u, b, h'') =
        >>=-eq-ok (parent left) (build (base + split) (count - split)) t h' in
      let (g, l_tree) = k base split left w t o a in
      let (g', r_tree) = k (base + split) (count - split) right t u (omega arith) b in
      let c =
        map_error-eq-ok cas_error
          (memory_put hex address worded (parent_node (memory_store hex address worded) left right))
          u h'' in
      let g'' = put-Grows hex address worded _ id u v c in
      (
        λ i n e. g'' i n (g' i n (g i n e)),
        two left right base count split p o l (load-memory_put hex address worded _ id u v c)
            (Tree-Grows hex address worded t v leaves left base split (λ i n e. g'' i n (g' i n e))
              l_tree)
            (Tree-Grows hex address worded u v leaves right (base + split) (count - split) g''
              r_tree),
      )
    where
      parent : ContentId → ContentId → Eff World BlobError ContentId
      parent left right =
          map_error cas_error (
            memory_put hex address worded
              (parent_node (memory_store hex address worded) left right))

      right_half : ContentId → Eff World BlobError ContentId
      right_half left = do right ← build (base + split) (count - split); parent left right

  leaf_at-one :
      (leaves : List ContentId) (base : ℕ) (leaf : Option ContentId) (id : ContentId) (w v : World)
      → get_elem? leaves base ≡ leaf
      → leaf_at (memory_store hex address worded) leaf w ≡ (ok id, v)
      → (w ≡ v) × (get_elem? leaves base ≡ some id)
  unfolding leaf_at
  leaf_at-one leaves base none id w v e h = absurd (cc h)
  leaf_at-one leaves base (some leaf) id w v e h = (cc, e ∙ cc)

  pub build_tree-Tree :
      (rounds : ℕ) (leaves : List ContentId) (base count : ℕ) (id : ContentId) (w v : World)
      → 1 ≤ count
      → build_tree (memory_store hex address worded) rounds leaves base count w ≡ (ok id, v)
      → Grows hex address worded w v × Tree hex address worded v leaves id base count
  unfolding build_tree
  build_tree-Tree zero leaves base count id w v o h = cc
  build_tree-Tree (suc rounds) leaves base count id w v o h = elim (Bool-cases (count == 1)) [
    | inl e ↦
        let (same, at) =
          leaf_at-one leaves base (get_elem? leaves base) id w v refl (ground arith) in
        let c : 1 ≡ count = ground arith in
        (
          subst (Grows hex address worded w) same (λ i n l. l),
          subst (Tree hex address worded v leaves id base) c (one base at),
        )
    | inr e ↦
        let (k, r, less, above) = pow2_below-largest count (ground arith) in
        built (build_tree (memory_store hex address worded) rounds leaves) leaves base count (2 ^ k)
          id w v (λ b c i w' v' o' h'. build_tree-Tree rounds leaves b c i w' v' o' h') r
          (omega arith) less (ground arith)
  ]
