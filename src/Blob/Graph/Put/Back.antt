-- ===== src/Blob/Graph/Put/Back.antt =====
-- A blob that was put is read back.
use foldlab.Base.{
  ℕ, ◌≡◌, ◌≤◌, sym, ap, ◌∙◌, ok, List, [], length, arith, Bool, Eff, ◌>>=◌, map_error, succeed,
  Bool-cases, Result-cases, inl, inr, ◌==◌, ltb, >>=-eq-ok, map_error-eq-ok,
}
use mathlib.Core.Path.{subst}
use foldlab.Node.{ContentId, HexCodec, max_uint32}
use foldlab.Store.{CasAddress}
use foldlab.Store.Memory.{World, memory_put}
use foldlab.Store.Memory.Put.{load-memory_put}
use foldlab.Blob.{max_uint64, expected_chunk_length, require_recipe_one}
use foldlab.Blob.Graph.{BlobError, BlobGraphResult}
use foldlab.Blob.Graph.Chunks.{memory_store}
use foldlab.Blob.Graph.Write.{build_tree, manifest_node, finalize_blob_graph}
use foldlab.Blob.Graph.Put.{PutState, as_format, feed_parts, flush, put}
use foldlab.Blob.Graph.Put.Held.{Grows, Tree, put-Grows, Held-Grows, Tree-Grows}
use foldlab.Blob.Graph.Put.Trees.{build_tree-Tree}
use foldlab.Blob.Graph.Put.Shapes.{content_of}
use foldlab.Blob.Graph.Put.Fed.{IsCut, feed_parts-IsFed, start-IsFed, flush-IsCut}
use foldlab.Blob.Graph.Read.{concat_parts, get}
use foldlab.Blob.Graph.Read.Back.{Written, get-Written}

module _ (hex : HexCodec) (address : CasAddress) (worded : Bool) where
  -- The tree and the manifest that a finished graph was put as.
  pub record Finalized (leaves : List ContentId) (total : ℕ) (graph : BlobGraphResult) (w v : World)
      : Type 0 where
    root : ContentId
    between : World
    some_leaf : 1 ≤ length leaves
    few : length leaves ≤ max_uint32
    less : total ≤ max_uint64
    built :
        build_tree (memory_store hex address worded) (length leaves) leaves 0 (length leaves) w
        ≡ (ok root, between)
    manifest :
        memory_put hex address worded (manifest_node leaves total root) between
        ≡ (ok graph.blob_ref, v)
    pub counted : (graph.total_bytes ≡ total) × (graph.leaf_count ≡ length leaves)

  pub Finalized-puts :
      (leaves : List ContentId) (total : ℕ) (graph : BlobGraphResult) (w v : World)
      → finalize_blob_graph (memory_store hex address worded) leaves total w ≡ (ok graph, v)
      → Finalized leaves total graph w v
  unfolding finalize_blob_graph
  Finalized-puts leaves total graph w v h = elim (Bool-cases (length leaves == 0)) [
    | inl e ↦ absurd (ground arith)
    | inr e ↦ elim (Bool-cases (ltb max_uint32 (length leaves))) [
      | inl f ↦ absurd (ground arith)
      | inr f ↦ elim (Bool-cases (ltb max_uint64 total)) [
        | inl g ↦ absurd (ground arith)
        | inr g ↦
            let tree =
              build_tree (memory_store hex address worded) (length leaves) leaves 0 (length leaves)
                w in
            elim (Result-cases tree.0) [
              | inr (x, a) ↦ absurd (ground arith)
              | inl (root, a) ↦
                  elim (Result-cases
                    (memory_put hex address worded (manifest_node leaves total root) tree.1).0) [
                      | inr (x, b) ↦ absurd (ground arith)
                      | inl (ref, b) ↦ record {
                        root = root;
                        between = tree.1;
                        some_leaf = ground arith;
                        few = ground arith;
                        less = ground arith;
                        built = ground arith;
                        manifest = ground arith;
                        counted = (ground arith, ground arith);
                      }
                    ]
            ]
      ]
    ]
  ]

  pub Written-cut :
      (st : PutState) (source : List ℕ) (graph : BlobGraphResult) (w v : World)
      → IsCut hex address worded w st source
      → Finalized st.leaves st.total_bytes graph w v
      → Written hex address worded v graph.blob_ref source
  Written-cut st source graph w v cut f = record {
    root = f.root;
    leaves = st.leaves;
    chunks = cut.chunks;
    manifest =
        load-memory_put hex address worded _ graph.blob_ref f.between v f.manifest
        ∙ ap (λ n. (ok (manifest_node st.leaves n f.root), v)) total;
    few = f.few;
    less = omega (arith, f.less, total);
    some_leaf = f.some_leaf;
    accepted = subst (λ c. require_recipe_one c ≡ ok c) content cut.shaped.accepted;
    tree =
        Tree-Grows hex address worded f.between v st.leaves f.root 0 (length st.leaves) last
          built.1;
    counted = cut.chunked.counted;
    whole = cut.whole;
    held = λ i leaf chunk a b. (
      Held-Grows hex address worded w v leaf i chunk (λ id n l. last id n (built.0 id n l))
          (cut.chunked.held i leaf chunk a b),
      subst (λ c. expected_chunk_length c i ≡ length chunk) content (cut.shaped.expected i chunk b),
    );
  }
    where
      total : st.total_bytes ≡ length source
      total = cut.chunked.total ∙ ap length cut.whole

      content :
          content_of (length (concat_parts cut.chunks)) (length cut.chunks)
          ≡ content_of (length source) (length st.leaves)
      content =
          ap (λ n. content_of n (length cut.chunks)) (ap length cut.whole)
          ∙ ap (content_of (length source)) (sym cut.chunked.counted)

      built :
          Grows hex address worded w f.between
          × Tree hex address worded f.between st.leaves f.root 0 (length st.leaves)
      built =
          build_tree-Tree hex address worded (length st.leaves) st.leaves 0 (length st.leaves)
            f.root w f.between f.some_leaf f.built

      last : Grows hex address worded f.between v
      last = put-Grows hex address worded _ graph.blob_ref f.between v f.manifest

  -- Over the in-memory backend: after a put of a source that answers a reference, a get of the reference answers the
  -- bytes of the source, whole and in order, and changes nothing, where they fit one array. This holds of every way
  -- that the source is cut into parts.
  pub get-put :
      (source : List (List ℕ)) (ref : ContentId) (w v : World)
      → put (memory_store hex address worded) source w ≡ (ok ref, v)
      → length (concat_parts source) ≤ 0x7fffffff
      → get (memory_store hex address worded) ref v ≡ (ok (concat_parts source), v)
  unfolding put
  get-put source ref w v h small =
      let (fed, t, a, h') =
        >>=-eq-ok finish (feed_parts (memory_store hex address worded) source _) w h in
      let (st, u, b, h'') = >>=-eq-ok finalize (flush (memory_store hex address worded) fed) t h' in
      let (graph, x, c, d) =
        >>=-eq-ok answer
          (map_error as_format
            (finalize_blob_graph (memory_store hex address worded) st.leaves st.total_bytes))
          u h'' in
      let cut =
        flush-IsCut hex address worded fed st (concat_parts source) t u
          (feed_parts-IsFed hex address worded source _ fed [] w t
            (start-IsFed hex address worded w) a)
          b in
      let f = Finalized-puts st.leaves st.total_bytes graph u x (
        map_error-eq-ok as_format
          (finalize_blob_graph (memory_store hex address worded) st.leaves st.total_bytes) u c) in
      let same : (graph.blob_ref ≡ ref) × (x ≡ v) = (cc, cc) in
      subst
        (λ (r : ContentId).
          get (memory_store hex address worded) r v ≡ (ok (concat_parts source), v))
        same.0
        (subst
          (λ (y : World).
            get (memory_store hex address worded) graph.blob_ref y ≡ (ok (concat_parts source), y))
          same.1
          (get-Written hex address worded x graph.blob_ref (concat_parts source)
            (Written-cut st (concat_parts source) graph u x cut f) small))
    where
      answer : BlobGraphResult → Eff World BlobError ContentId
      answer graph = succeed graph.blob_ref

      finalize : PutState → Eff World BlobError ContentId
      finalize st =
          map_error as_format
            (finalize_blob_graph (memory_store hex address worded) st.leaves st.total_bytes)
          >>= answer

      finish : PutState → Eff World BlobError ContentId
      finish fed = flush (memory_store hex address worded) fed >>= finalize
