-- ===== src/Store/Kvs.antt =====
-- The store law over the key-value backend refines the store law over the in-memory one.
pub mod Put
use foldlab.Base.{
  ℕ, ◌≡◌, ◌⊎◌, inl, inr, refl, sym, ap, ◌∙◌, Option, none, some, List, [], ◌∷◌, ◌++◌, Result, ok,
  err, Eff, All, continue, succeed, fail, lift, map_error, ◌>>=◌, >>=-eq-ok, Bool-cases,
  Result-cases, Option-cases, arith,
}
use mathlib.Core.Path.{subst}
use foldlab.Node.{
  ContentId, IsContentId, HexCodec, CasNodeInput, CasReference, CasError, store_failure,
  backend_failed, content_not_found,
}
use foldlab.Node.Checks.{IsNode, is_node_input_sound, IsReference}
use foldlab.Admission.{AdmissionFacts}
use foldlab.Backend.{MemoryPlane, lookup, memory_reader, memory_writer, ByteReader}
use foldlab.Backend.Kvs.{KeyValueStore, KvsFailure, kvs_reader, kvs_writer}
use foldlab.Backend.Kvs.Refines.{
  IsKvs, Represents, load_bytes-Represents, load_bytes_quiet, put_bytes-Represents,
}
use foldlab.Store.{
  CasAddress, load, load_resident, reference_tags, resident_tag, admission_facts, put_outcome,
  settle, backend_failure, PutOutcome,
}

module _ {K : Type 0} (kvs : KeyValueStore K) (view : K → List ℕ → Option (List ℕ))
    (law : IsKvs kvs view) where
  -- The backend could not answer.
  pub data Failed {A : Type 0} : Result CasError A → Type 0 where
    backend_failed_at : (id : ContentId) → Failed (err (store_failure (backend_failed id)))

  -- A computation that reads: it fails with the backend, or gives the answer of its specification.
  abbrev Reads : {A : Type 0} → Eff K CasError A → Eff MemoryPlane CasError A → Type 0
  Reads m n =
      (k : K) (plane : MemoryPlane)
      → Represents kvs view k plane
      → Failed (m k).0 ⊎ ((n plane ≡ ((m k).0, plane)) × Represents kvs view (m k).1 plane)

  lift-Reads : {A : Type 0} (r : Result CasError A) → Reads (lift r) (lift r)
  lift-Reads r k plane h = inr (refl, h)

  Failed-continue :
      {A B : Type 0} (f : A → Eff K CasError B) (p : Result CasError A × K)
      → Failed p.0
      → Failed (continue p.0 f p.1).0
  Failed-continue f (ok _, k) x = elim x [ ]
  Failed-continue f (err _, k) (backend_failed_at id) = backend_failed_at id

  continue-Reads :
      {A B : Type 0} (f : A → Eff K CasError B) (g : A → Eff MemoryPlane CasError B)
      → ((a : A) → Reads (f a) (g a))
      → (p : Result CasError A × K) (q : Result CasError A × MemoryPlane) (plane : MemoryPlane)
      → q ≡ (p.0, plane)
      → Represents kvs view p.1 plane
      → Failed (continue p.0 f p.1).0
        ⊎ ((continue q.0 g q.1 ≡ ((continue p.0 f p.1).0, plane))
            × Represents kvs view (continue p.0 f p.1).1 plane)
  continue-Reads f g both (ok a, k) q plane e h = rw e (both a k plane h)
  continue-Reads f g both (err x, k) q plane e h = inr (rw e refl, h)

  bind-Reads :
      {A B : Type 0} (m : Eff K CasError A) (n : Eff MemoryPlane CasError A)
      (f : A → Eff K CasError B) (g : A → Eff MemoryPlane CasError B)
      → Reads m n
      → ((a : A) → Reads (f a) (g a))
      → Reads (m >>= f) (n >>= g)
  bind-Reads m n f g first both k plane h = elim (first k plane h) [
    | inl x ↦ inl (Failed-continue f (m k) x)
    | inr (e, h') ↦ continue-Reads f g both (m k) (n plane) plane e h'
  ]

  module _ (hex : HexCodec) (address : CasAddress) where
    bytes-Reads :
        (asked id : ContentId)
        → IsContentId id
        → Reads
            (map_error (backend_failure asked) ((kvs_reader kvs).load_bytes id))
            (map_error (backend_failure asked) (memory_reader.load_bytes id))
    unfolding memory_reader backend_failure
    bytes-Reads asked id i k plane h = elim (Result-cases ((kvs_reader kvs).load_bytes id k).0) [
      | inr (x, e) ↦ inl (subst Failed (ground arith) (backend_failed_at asked))
      | inl (r, e) ↦ inr (
        ground (arith, load_bytes-Represents kvs view law id k plane r i h e),
        subst (λ t. Represents kvs view t plane) (sym (load_bytes_quiet kvs view law id k)) h,
      )
    ]

    tag-Reads :
        (id : ContentId) (resident : Option (List ℕ))
        → Reads
            (resident_tag hex address (kvs_reader kvs) id resident)
            (resident_tag hex address memory_reader id resident)
    unfolding resident_tag
    tag-Reads id none = lift-Reads (ok none)
    tag-Reads id (some bytes) =
        bind-Reads _ _ _ _ (lift-Reads _) (λ n. lift-Reads (ok (some n.kind.tag)))

    tags-Reads :
        (refs : List CasReference)
        → All IsReference refs
        → Reads
            (reference_tags hex address (kvs_reader kvs) refs)
            (reference_tags hex address memory_reader refs)
    unfolding reference_tags
    tags-Reads [] all = lift-Reads (ok [])
    tags-Reads (ref ∷ refs) all =
        bind-Reads _ _ _ _ (bytes-Reads ref.id ref.id all.0.0) (λ resident.
          bind-Reads _ _ _ _ (tag-Reads ref.id resident) (λ tag.
            bind-Reads _ _ _ _ (tags-Reads refs all.1) (λ rest. lift-Reads (ok (tag ∷ rest)))))

    facts-Reads :
        (n : CasNodeInput) (id : ContentId)
        → All IsReference n.refs
        → IsContentId id
        → Reads
            (admission_facts hex address (kvs_reader kvs) n id)
            (admission_facts hex address memory_reader n id)
    unfolding admission_facts
    facts-Reads n id all i = bind-Reads _ _ _ _ (tags-Reads n.refs all) (λ tags.
        bind-Reads _ _ _ _ (bytes-Reads id id i)
          (λ resident. lift-Reads (ok (record { ref_tags = tags; resident = resident }))))

    resident-Reads :
        (id : ContentId) (resident : Option (List ℕ))
        → Reads
            (load_resident hex address (kvs_reader kvs) id resident)
            (load_resident hex address memory_reader id resident)
    unfolding load_resident
    resident-Reads id none = lift-Reads (err (content_not_found id))
    resident-Reads id (some bytes) = lift-Reads _

    -- A load over the key-value backend fails with the backend, or answers as one over the plane that it
    -- represents, whether that is the node or a refusal.
    pub load-Reads :
        (id : ContentId) (k : K) (plane : MemoryPlane)
        → IsContentId id
        → Represents kvs view k plane
        → Failed (load hex address (kvs_reader kvs) id k).0
          ⊎ ((load hex address memory_reader id plane
                ≡ ((load hex address (kvs_reader kvs) id k).0, plane))
              × Represents kvs view (load hex address (kvs_reader kvs) id k).1 plane)
    unfolding load
    load-Reads id k plane i h =
        bind-Reads _ _ _ _ (bytes-Reads id id i) (resident-Reads id) k plane h

    -- In the plane, the fact about an address is its entry.
    fact_resident :
        (n : CasNodeInput) (id : ContentId) (plane : MemoryPlane) (facts : AdmissionFacts)
        → admission_facts hex address memory_reader n id plane ≡ (ok facts, plane)
        → ((refs : List CasReference)
            → (reference_tags hex address memory_reader refs plane).1 ≡ plane)
        → facts.resident ≡ lookup id plane.nodes
    unfolding admission_facts memory_reader
    fact_resident n id plane facts h quiet =
        elim (Result-cases (reference_tags hex address memory_reader n.refs plane).0) [
          | inr (x, e) ↦ absurd (ground arith)
          | inl (tags, e) ↦ ground (arith, quiet n.refs)
        ]
