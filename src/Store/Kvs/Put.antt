-- ===== src/Store/Kvs/Put.antt =====
-- A put over the key-value backend against a put over the in-memory one.
use foldlab.Base.{
  ℕ, ◌≡◌, ◌⊎◌, inl, inr, refl, sym, ◌∙◌, Option, none, List, [], ◌∷◌, Result, ok, All, ◌==◌, ◌>>=◌,
  Bool-cases, Result-cases, Option-cases, arith,
}
use foldlab.Node.{
  ContentId, IsContentId, HexCodec, CasNodeInput, CasReference, CasError, is_node_input,
}
use foldlab.Node.Checks.{is_node_input_sound, IsReference}
use foldlab.Codec.{encode_cas_node, cas_scheme_version}
use foldlab.Admission.Verdicts.{admit_absent}
use foldlab.Admission.{AdmissionVerdict, judge_admission}
use foldlab.Backend.{MemoryPlane, lookup, memory_reader, memory_writer}
use foldlab.Backend.Kvs.{KeyValueStore, kvs_reader, kvs_writer}
use foldlab.Backend.Kvs.Refines.{IsKvs, Represents, put_bytes-Represents}
use foldlab.Store.{
  CasAddress, reference_tags, resident_tag, admission_facts, put_outcome, settle, write_receipt,
  backend_failure, PutOutcome, validate_node, ensure_known_kind, verify_node_bytes,
}
use foldlab.Store.Kvs.{Failed, backend_failed_at, Failed-continue, facts-Reads, fact_resident}

module _ {K : Type 0} (kvs : KeyValueStore K) (view : K → List ℕ → Option (List ℕ))
    (law : IsKvs kvs view) (hex : HexCodec) (address : CasAddress) where
  tags_quiet :
      (refs : List CasReference) (plane : MemoryPlane)
      → (reference_tags hex address memory_reader refs plane).1 ≡ plane
  unfolding reference_tags resident_tag memory_reader
  tags_quiet [] plane = refl
  tags_quiet (ref ∷ refs) plane = elim (Option-cases (lookup ref.id plane.nodes)) [
    | inl e ↦ elim (Result-cases (reference_tags hex address memory_reader refs plane).0) [
      | inl (rest, f) ↦ ground (arith, tags_quiet refs plane)
      | inr (x, f) ↦ ground (arith, tags_quiet refs plane)
    ]
    | inr (b, e) ↦ elim (Result-cases (verify_node_bytes hex address ref.id b)) [
      | inr (x, v) ↦ ground arith
      | inl (m, v) ↦ elim (Result-cases (reference_tags hex address memory_reader refs plane).0) [
        | inl (rest, f) ↦ ground (arith, tags_quiet refs plane)
        | inr (x, f) ↦ ground (arith, tags_quiet refs plane)
      ]
    ]
  ]

  -- The outcome over the key-value backend, and the one over the plane.
  abbrev Refined :
      Result CasError PutOutcome × K → Result CasError PutOutcome × MemoryPlane → Type 0
  Refined p q = Failed kvs view law p.0 ⊎ ((q.0 ≡ p.0) × Represents kvs view p.1 q.1)

  settle-Refined :
      (node : CasNodeInput) (bytes : List ℕ) (id : ContentId) (verdict : AdmissionVerdict)
      (now : K → ℕ) (clock : MemoryPlane → ℕ) (k : K) (plane : MemoryPlane)
      → IsContentId id
      → Represents kvs view k plane
      → ((n : CasNodeInput) → verdict ≡ AdmissionVerdict.admit n → lookup id plane.nodes ≡ none)
      → Refined
          (settle hex address (kvs_reader kvs) (kvs_writer kvs) now none node bytes id verdict k)
          (settle hex address memory_reader memory_writer clock none node bytes id verdict plane)
  unfolding settle write_receipt memory_writer backend_failure
  settle-Refined node bytes id (AdmissionVerdict.dangling_reference m) now clock k plane i h a =
      inr (refl, h)
  settle-Refined node bytes id (AdmissionVerdict.wrong_kind_reference r x y) now clock k plane i h
        a =
      inr (refl, h)
  settle-Refined node bytes id AdmissionVerdict.collision now clock k plane i h a = inr (refl, h)
  settle-Refined node bytes id (AdmissionVerdict.already_resident n) now clock k plane i h a =
      inr (refl, h)
  settle-Refined node bytes id AdmissionVerdict.non_canonical now clock k plane i h a =
      inr (refl, h)
  settle-Refined node bytes id (AdmissionVerdict.unknown_kind v t) now clock k plane i h a =
      inr (refl, h)
  settle-Refined node bytes id (AdmissionVerdict.admit n) now clock k plane i h a =
      let absent = a n refl in
      elim (Result-cases ((kvs_writer kvs).put_bytes id bytes k).0) [
        | inr (x, e) ↦ inl (rw e (backend_failed_at id))
        | inl (u, e) ↦ inr (
          rw (e, absent) refl,
          rw (e, absent) (put_bytes-Represents kvs view law id bytes k plane i h absent e),
        )
      ]

  judged-Refined :
      (node : CasNodeInput) (bytes : List ℕ) (id : ContentId) (now : K → ℕ)
      (clock : MemoryPlane → ℕ) (k : K) (plane : MemoryPlane)
      → IsContentId id
      → All IsReference node.refs
      → Represents kvs view k plane
      → Refined
          ((admission_facts hex address (kvs_reader kvs) node id >>= λ facts.
              settle hex address
                (kvs_reader kvs)
                (kvs_writer kvs)
                now
                none
                node
                bytes
                id
                (judge_admission hex bytes facts))
            k)
          ((admission_facts hex address memory_reader node id >>= λ facts.
              settle hex address memory_reader memory_writer clock none node bytes id
                (judge_admission hex bytes facts))
            plane)
  judged-Refined node bytes id now clock k plane i all h =
      elim (facts-Reads kvs view law hex address node id all i k plane h) [
        | inl x ↦ inl (
            Failed-continue kvs view law _ (admission_facts hex address (kvs_reader kvs) node id k)
              x)
        | inr (e, h') ↦
            elim (Result-cases (admission_facts hex address (kvs_reader kvs) node id k).0) [
              | inr (x, f) ↦ inr (rw (e, f) refl, rw (e, f) h')
              | inl (facts, f) ↦
                  let e' : admission_facts hex address memory_reader node id plane
                      ≡ (ok facts, plane) =
                    ground arith in
                  rw (e', f)
                    (settle-Refined node bytes id (judge_admission hex bytes facts) now clock
                      (admission_facts hex address (kvs_reader kvs) node id k).1 plane i h'
                      (λ n a.
                        sym (
                          fact_resident kvs view law hex address node id plane facts e'
                            (λ refs. tags_quiet refs plane))
                        ∙ admit_absent hex bytes facts n a))
            ]
      ]

  -- The store law over a key-value store that behaves as documented refines the law over the in-memory backend,
  -- without a word log. From a store that represents a plane, a put fails with the backend; or it answers as a put over
  -- the plane does, be that an outcome or a refusal, and leaves a store that represents the plane after that put.
  pub put_outcome-Refined :
      (node : CasNodeInput) (now : K → ℕ) (clock : MemoryPlane → ℕ) (k : K) (plane : MemoryPlane)
      → Represents kvs view k plane
      → let p = put_outcome hex address (kvs_reader kvs) (kvs_writer kvs) now none node k in
        let q = put_outcome hex address memory_reader memory_writer clock none node plane in
        Failed kvs view law p.0 ⊎ ((q.0 ≡ p.0) × Represents kvs view p.1 q.1)
  unfolding put_outcome validate_node ensure_known_kind
  put_outcome-Refined node now clock k plane h = elim (Bool-cases (is_node_input node)) [
    | inr e ↦ rw e (inr (refl, h))
    | inl e ↦ elim (Bool-cases (node.kind.version == cas_scheme_version)) [
      | inr v ↦ rw (e, v) (inr (refl, h))
      | inl v ↦ elim (Result-cases (address.digest (encode_cas_node hex node))) [
        | inr (x, d) ↦ rw (e, v, d) (inr (refl, h))
        | inl (id, d) ↦
            rw (e, v, d)
              (judged-Refined node (encode_cas_node hex node) id now clock k plane
                (address.digest-IsContentId (encode_cas_node hex node) id d)
                (is_node_input_sound node e).refs h)
      ]
    ]
  ]
