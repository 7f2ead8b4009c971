-- ===== src/Blob/Graph/Put/Held.antt =====
-- What the in-memory store holds of a blob that is being written.
use foldlab.Base.{
  ℕ, ◌+◌, ◌-◌, ◌≡◌, ◌≤◌, ◌<◌, refl, ok, some, List, [], length, get_elem?, arith, Bool,
}
use foldlab.Node.{ContentId, CasNodeInput, HexCodec, max_uint32}
use foldlab.Store.{CasAddress}
use foldlab.Store.Memory.{World, memory_load, memory_put}
use foldlab.Store.Memory.Put.{load-memory_put, load-keeps}
use foldlab.Wire.Documents.{read_uint32_at}
use foldlab.Wire.{write_uint32}
use foldlab.Blob.{ManifestContent, expected_chunk_length, pow2_below}
use foldlab.Blob.Graph.{
  AdmittedBlobLeaf, admit_blob_leaf, load_chunk, load_declared, check_chunk, leaf_chunk, blob_node,
  blob_leaf, leaf_payload, chunk_data_tag, parent_node,
}
use foldlab.Blob.Graph.Chunks.{memory_store, Admitted-puts}

module _ (hex : HexCodec) (address : CasAddress) (worded : Bool) where
  -- What a load answers in one world it answers in the other.
  abbrev pub Grows : World → World → Type 0
  Grows w v =
      (id : ContentId) (n : CasNodeInput)
      → memory_load hex address id w ≡ (ok n, w)
      → memory_load hex address id v ≡ (ok n, v)

  pub put-Grows :
      (n : CasNodeInput) (id : ContentId) (w v : World)
      → memory_put hex address worded n w ≡ (ok id, v)
      → Grows w v
  put-Grows n id w v h k m l = load-keeps hex address worded m n k id w v l h

  -- A leaf at its index, and its chunk behind it.
  pub record Held (w : World) (leaf : ContentId) (index : ℕ) (bytes : List ℕ) : Type 0 where
    pub chunk_id : ContentId
    pub index_fits : index ≤ max_uint32
    pub length_fits : length bytes ≤ max_uint32
    pub leaf_load :
        memory_load hex address leaf w ≡ (ok (blob_leaf chunk_id index (length bytes)), w)
    pub chunk_load :
        memory_load hex address chunk_id w ≡ (ok (blob_node chunk_data_tag bytes []), w)

  pub Held-Grows :
      (w v : World) (leaf : ContentId) (index : ℕ) (bytes : List ℕ)
      → Grows w v
      → Held w leaf index bytes
      → Held v leaf index bytes
  Held-Grows w v leaf index bytes g h = record {
    chunk_id = h.chunk_id;
    index_fits = h.index_fits;
    length_fits = h.length_fits;
    leaf_load = g leaf _ h.leaf_load;
    chunk_load = g h.chunk_id _ h.chunk_load;
  }

  pub load_chunk-Held :
      (plan : ManifestContent) (w : World) (leaf : ContentId) (index : ℕ) (bytes : List ℕ)
      → Held w leaf index bytes
      → expected_chunk_length plan index ≡ length bytes
      → load_chunk (memory_store hex address worded) plan leaf index w ≡ (ok bytes, w)
  unfolding load_chunk load_declared check_chunk leaf_chunk leaf_payload write_uint32
  load_chunk-Held plan w leaf index bytes h g = ground (
    arith,
    h.leaf_load,
    h.chunk_load,
    read_uint32_at 0 (leaf_payload index (length bytes)) (write_uint32 (length bytes)) index
        h.index_fits refl,
    read_uint32_at 4 (leaf_payload index (length bytes)) [] (length bytes) h.length_fits refl,
  )

  -- An admitted leaf is held.
  pub admit-Held :
      (index total : ℕ) (bytes : List ℕ) (leaf : AdmittedBlobLeaf) (w v : World)
      → admit_blob_leaf (memory_store hex address worded) index total bytes w ≡ (ok leaf, v)
      → Grows w v × Held v leaf.leaf_id index bytes
  admit-Held index total bytes leaf w v h =
      let a = Admitted-puts hex address worded index total bytes w leaf v h in
      (
        λ id n l.
            put-Grows _ leaf.leaf_id a.between v a.leaf_put id n
              (put-Grows _ a.chunk_id w a.between a.chunk_put id n l),
        record {
          chunk_id = a.chunk_id;
          index_fits = a.index_fits;
          length_fits = a.length_fits;
          leaf_load = load-memory_put hex address worded _ leaf.leaf_id a.between v a.leaf_put;
          chunk_load =
              put-Grows _ leaf.leaf_id a.between v a.leaf_put a.chunk_id _
                (load-memory_put hex address worded _ a.chunk_id w a.between a.chunk_put);
        },
      )

  pub admit-total :
      (index total : ℕ) (bytes : List ℕ) (leaf : AdmittedBlobLeaf) (w v : World)
      → admit_blob_leaf (memory_store hex address worded) index total bytes w ≡ (ok leaf, v)
      → leaf.total_bytes ≡ total + length bytes
  admit-total index total bytes leaf w v h =
      (Admitted-puts hex address worded index total bytes w leaf v h).total

  -- The tree over the leaves from `base` on.
  pub data Tree (w : World) (leaves : List ContentId) : ContentId → ℕ → ℕ → Type 0 where
    one : {id : ContentId} (base : ℕ) → get_elem? leaves base ≡ some id → Tree w leaves id base 1
    two :
        {id : ContentId} (left right : ContentId) (base count split : ℕ)
        → pow2_below count ≡ some split
        → 1 ≤ split
        → split < count
        → memory_load hex address id w
          ≡ (ok (parent_node (memory_store hex address worded) left right), w)
        → Tree w leaves left base split
        → Tree w leaves right (base + split) (count - split)
        → Tree w leaves id base count

  pub Tree-Grows :
      (w v : World) (leaves : List ContentId) (id : ContentId) (base count : ℕ)
      → Grows w v
      → Tree w leaves id base count
      → Tree v leaves id base count
  Tree-Grows w v leaves id base count g (one _ e) = one base e
  Tree-Grows w v leaves id base count g (two left right _ _ split p o l e s t) =
      two left right base count split p o l (g id _ e) (Tree-Grows w v leaves left base split g s)
        (Tree-Grows w v leaves right (base + split) (count - split) g t)
