-- ===== src/Blob/Graph/Chunks.antt =====
-- A leaf that was admitted is read back as its chunk.
use foldlab.Base.{
  ℕ, ◌+◌, ◌≡◌, ◌≤◌, refl, ok, List, [], length, arith, Bool, Bool-cases, Result-cases, inl, inr,
  leb, ltb,
}
use foldlab.Node.{ContentId, HexCodec, max_uint32}
use foldlab.Store.{CasAddress}
use foldlab.Store.Memory.{World, memory_load, memory_put}
use foldlab.Store.Memory.Put.{load-memory_put, load-keeps}
use foldlab.Wire.Documents.{read_uint32_at}
use foldlab.Wire.{write_uint32}
use foldlab.Blob.{ManifestContent, max_uint64, expected_chunk_length}
use foldlab.Blob.Graph.{
  CasStoreShape, AdmittedBlobLeaf, admit_blob_leaf, load_chunk, load_declared, check_chunk,
  leaf_chunk, blob_node, blob_leaf, leaf_payload, chunk_data_tag,
}

-- The in-memory store as a blob uses it.
abbrev pub memory_store : HexCodec → CasAddress → Bool → CasStoreShape World
memory_store hex address worded = record {
  load = memory_load hex address;
  put = memory_put hex address worded;
}

module _ (hex : HexCodec) (address : CasAddress) (worded : Bool) (index total_bytes : ℕ)
    (bytes : List ℕ) (w : World) where
  -- The two puts of an admitted leaf.
  pub record Admitted (leaf : AdmittedBlobLeaf) (v : World) : Type 0 where
    pub chunk_id : ContentId
    pub between : World
    pub index_fits : index ≤ max_uint32
    pub length_fits : length bytes ≤ max_uint32
    pub total : leaf.total_bytes ≡ total_bytes + length bytes
    pub chunk_put :
        memory_put hex address worded (blob_node chunk_data_tag bytes []) w ≡ (ok chunk_id, between)
    pub leaf_put :
        memory_put hex address worded (blob_leaf chunk_id index (length bytes)) between
        ≡ (ok leaf.leaf_id, v)

  pub Admitted-puts :
      (leaf : AdmittedBlobLeaf) (v : World)
      → admit_blob_leaf (memory_store hex address worded) index total_bytes bytes w ≡ (ok leaf, v)
      → Admitted leaf v
  unfolding admit_blob_leaf
  Admitted-puts leaf v h = elim (Bool-cases (leb max_uint32 index)) [
    | inl e ↦ absurd (ground arith)
    | inr e ↦ elim (Bool-cases (ltb max_uint32 (length bytes))) [
      | inl f ↦ absurd (ground arith)
      | inr f ↦ elim (Bool-cases (ltb max_uint64 (total_bytes + length bytes))) [
        | inl g ↦ absurd (ground arith)
        | inr g ↦
            elim (Result-cases
              (memory_put hex address worded (blob_node chunk_data_tag bytes []) w).0) [
                | inr (x, c) ↦ absurd (ground arith)
                | inl (chunk_id, c) ↦
                    let between : World =
                      (memory_put hex address worded (blob_node chunk_data_tag bytes []) w).1 in
                    elim (Result-cases
                      (memory_put hex address worded (blob_leaf chunk_id index (length bytes))
                        between).0) [
                          | inr (x, l) ↦ absurd (ground arith)
                          | inl (leaf_id, l) ↦ record {
                            chunk_id = chunk_id;
                            between = between;
                            index_fits = ground arith;
                            length_fits = ground arith;
                            total = ground arith;
                            chunk_put = ground arith;
                            leaf_put = ground arith;
                          }
                        ]
              ]
      ]
    ]
  ]

  loaded :
      (plan : ManifestContent) (leaf : AdmittedBlobLeaf) (v : World) (a : Admitted leaf v)
      → expected_chunk_length plan index ≡ length bytes
      → memory_load hex address leaf.leaf_id v ≡ (ok (blob_leaf a.chunk_id index (length bytes)), v)
      → memory_load hex address a.chunk_id v ≡ (ok (blob_node chunk_data_tag bytes []), v)
      → load_chunk (memory_store hex address worded) plan leaf.leaf_id index v ≡ (ok bytes, v)
  unfolding load_chunk load_declared check_chunk leaf_chunk leaf_payload write_uint32
  loaded plan leaf v a g l c = ground (
    arith,
    read_uint32_at 0 (leaf_payload index (length bytes)) (write_uint32 (length bytes)) index
        a.index_fits refl,
    read_uint32_at 4 (leaf_payload index (length bytes)) [] (length bytes) a.length_fits refl,
  )

  -- Over the in-memory backend, an admitted leaf is read back as the bytes of its chunk, where the manifest
  -- expects a chunk of their length at its index; the read changes nothing.
  pub load_chunk-admit_blob_leaf :
      (plan : ManifestContent) (leaf : AdmittedBlobLeaf) (v : World)
      → admit_blob_leaf (memory_store hex address worded) index total_bytes bytes w ≡ (ok leaf, v)
      → expected_chunk_length plan index ≡ length bytes
      → load_chunk (memory_store hex address worded) plan leaf.leaf_id index v ≡ (ok bytes, v)
  load_chunk-admit_blob_leaf plan leaf v h g =
      let a = Admitted-puts leaf v h in
      loaded plan leaf v a g
        (load-memory_put hex address worded _ leaf.leaf_id a.between v a.leaf_put)
        (load-keeps hex address worded _ _ a.chunk_id leaf.leaf_id a.between v
          (load-memory_put hex address worded _ a.chunk_id w a.between a.chunk_put) a.leaf_put)
