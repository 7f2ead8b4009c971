-- ===== src/Store/Memory/Steps.antt =====
-- How one put moves the world: what each outcome writes.
use foldlab.Base.{
  ℕ, ◌≡◌, refl, sym, ◌∙◌, ok, err, Result, Option, none, some, Option-cases, Result-cases, inl, inr,
  List, [], ◌∷◌, ◌++◌, All, length, if◌then◌else◌, arith, Bool, Bool-cases, ◌==◌,
}
use foldlab.Node.{
  ContentId, HexCodec, CasReference, CasNodeInput, CasError, unknown_kind as unknown, store_failure,
  invalid_input, is_node_input,
}
use foldlab.Node.Checks.{IsNode, is_node_input_sound, is_node_input_complete}
use foldlab.Codec.{encode_cas_node, cas_scheme_version}
use foldlab.Admission.{
  AdmissionFacts, AdmissionVerdict, admit, already_resident, non_canonical, unknown_kind,
  dangling_reference, wrong_kind_reference, collision, judge_admission,
}
use foldlab.Admission.Verdicts.{Resolves, judge-admitted, judge-joined}
use foldlab.WordLog.{memory_append}
use foldlab.Backend.{lookup}
use foldlab.Store.{
  CasAddress, fresh, duplicate, PutOutcome, reference_tags, admission_facts, verify_node_bytes,
  settle,
}
use foldlab.Store.Memory.{World, world_reader, world_writer, receipts, memory_put_outcome}

module _ (hex : HexCodec) (address : CasAddress) where
  -- Reading the facts changes nothing.
  pub tags_pure :
      (refs : List CasReference) (w : World)
      → (reference_tags hex address world_reader refs w).1 ≡ w
  unfolding reference_tags world_reader
  tags_pure [] w = refl
  tags_pure (ref ∷ refs) w = ground (arith, tags_pure refs w)

  facts_pure :
      (n : CasNodeInput) (id : ContentId) (w : World)
      → (admission_facts hex address world_reader n id w).1 ≡ w
  unfolding admission_facts world_reader
  facts_pure n id w = ground (arith, tags_pure n.refs w)

  facts_resident :
      (n : CasNodeInput) (id : ContentId) (w : World) (facts : AdmissionFacts)
      → (admission_facts hex address world_reader n id w).0 ≡ ok facts
      → facts.resident ≡ lookup id w.plane.nodes
  unfolding admission_facts world_reader
  facts_resident n id w facts h = ground (arith, tags_pure n.refs w)

  facts_tags :
      (n : CasNodeInput) (id : ContentId) (w : World) (facts : AdmissionFacts)
      → (admission_facts hex address world_reader n id w).0 ≡ ok facts
      → (reference_tags hex address world_reader n.refs w).0 ≡ ok facts.ref_tags
  unfolding admission_facts world_reader
  facts_tags n id w facts h = ground (arith, tags_pure n.refs w)

  -- A reference stands for a resident node of the kind that it declares.
  pub record IsResident (w : World) (ref : CasReference) : Type 0 where
    pub bytes : List ℕ
    pub node : CasNodeInput
    pub held : lookup ref.id w.plane.nodes ≡ some bytes
    pub verified : verify_node_bytes hex address ref.id bytes ≡ ok node
    pub typed : node.kind.tag ≡ ref.expected_tag

  resolved-IsResident :
      (refs : List CasReference) (w : World) (tags : List (Option ℕ))
      → (reference_tags hex address world_reader refs w).0 ≡ ok tags
      → Resolves refs tags
      → All (IsResident w) refs
  unfolding reference_tags world_reader
  resolved-IsResident [] w tags h r = tt
  resolved-IsResident (ref ∷ refs) w [] h r = absurd r
  resolved-IsResident (ref ∷ refs) w (tag ∷ tags) h r =
      elim (Option-cases (lookup ref.id w.plane.nodes)) [
        | inl e ↦ absurd (ground arith)
        | inr (b, e) ↦ elim (Result-cases (verify_node_bytes hex address ref.id b)) [
          | inl (m, v) ↦ (
            record { bytes = b; node = m; held = e; verified = v; typed = ground arith },
            resolved-IsResident refs w tags (ground arith) r.1,
          )
          | inr (x, v) ↦ absurd (ground arith)
        ]
      ]

  module _ (worded : Bool) (n : CasNodeInput) (w : World) where
    -- The world after a fresh admission: the bytes, and one receipt where there is a log.
    abbrev pub written : ContentId → World
    written id = record w {
      plane = record w.plane { nodes = w.plane.nodes ++ (id, encode_cas_node hex n) ∷ [] };
      log =
          if worded
          then memory_append
              (record { address = id; at = w.now; size = length n.payload; tag = n.kind.tag }) w.log
          else w.log;
    }

    pub record IsPutAt (id : ContentId) : Type 0 where
      pub valid : IsNode n
      pub known : n.kind.version ≡ cas_scheme_version
      pub addressed : address.digest (encode_cas_node hex n) ≡ ok id
      pub resolved : All (IsResident w) n.refs

    -- The three ways in which a put ends.
    pub data PutStep (p : Result CasError PutOutcome × World) : Type 0 where
      admitted :
          (id : ContentId)
          → IsPutAt id
          → lookup id w.plane.nodes ≡ none
          → p ≡ (ok (fresh id), written id)
          → PutStep p
      joined :
          (id : ContentId)
          → IsPutAt id
          → lookup id w.plane.nodes ≡ some (encode_cas_node hex n)
          → p ≡ (ok (duplicate id), w)
          → PutStep p
      refused : (e : CasError) → p ≡ (err e, w) → PutStep p

    pub put_settles :
        (id : ContentId) (facts : AdmissionFacts)
        → IsNode n
        → n.kind.version ≡ cas_scheme_version
        → address.digest (encode_cas_node hex n) ≡ ok id
        → (admission_facts hex address world_reader n id w).0 ≡ ok facts
        → memory_put_outcome hex address worded n w
          ≡ settle hex address world_reader world_writer
              (λ u. u.now)
              (receipts worded)
              n
              (encode_cas_node hex n)
              id
              (judge_admission hex (encode_cas_node hex n) facts)
              w
    unfolding memory_put_outcome
    put_settles id facts valid known addressed f =
        ground (arith, is_node_input_complete n valid, facts_pure n id w)

    put_at :
        (id : ContentId) (facts : AdmissionFacts)
        → IsNode n
        → n.kind.version ≡ cas_scheme_version
        → address.digest (encode_cas_node hex n) ≡ ok id
        → (admission_facts hex address world_reader n id w).0 ≡ ok facts
        → Resolves n.refs facts.ref_tags
        → IsPutAt id
    put_at id facts valid known addressed f r = record {
      valid = valid;
      known = known;
      addressed = addressed;
      resolved = resolved-IsResident n.refs w facts.ref_tags (facts_tags n id w facts f) r;
    }

    settle_step :
        (id : ContentId) (facts : AdmissionFacts)
        → IsNode n
        → n.kind.version ≡ cas_scheme_version
        → address.digest (encode_cas_node hex n) ≡ ok id
        → (admission_facts hex address world_reader n id w).0 ≡ ok facts
        → (v : AdmissionVerdict) → judge_admission hex (encode_cas_node hex n) facts ≡ v
        → PutStep (
            settle hex address world_reader world_writer
              (λ u. u.now)
              (receipts worded)
              n
              (encode_cas_node hex n)
              id
              v
              w)
    unfolding memory_put_outcome
    settle_step id facts valid known addressed f (admit m) j =
        let (a, r) = judge-admitted hex n valid facts m j in
        let absent : lookup id w.plane.nodes ≡ none = sym (facts_resident n id w facts f) ∙ r in
        admitted id (put_at id facts valid known addressed f a.1) absent (ground arith)
    settle_step id facts valid known addressed f (already_resident m) j =
        let (a, r) = judge-joined hex n valid facts m j in
        joined id (put_at id facts valid known addressed f a.1)
          (sym (facts_resident n id w facts f) ∙ r) refl
    settle_step id facts valid known addressed f non_canonical j = refused _ refl
    settle_step id facts valid known addressed f (unknown_kind a b) j = refused _ refl
    settle_step id facts valid known addressed f (dangling_reference a) j = refused _ refl
    settle_step id facts valid known addressed f (wrong_kind_reference a b c) j = refused _ refl
    settle_step id facts valid known addressed f collision j = refused _ refl

    pub put_step : PutStep (memory_put_outcome hex address worded n w)
    unfolding memory_put_outcome
    put_step = elim (Bool-cases (is_node_input n)) [
      | inr e ↦ refused (store_failure invalid_input) (ground arith)
      | inl e ↦ elim (Bool-cases (n.kind.version == cas_scheme_version)) [
        | inr v ↦ refused (unknown n.kind.version n.kind.tag) (ground arith)
        | inl v ↦ elim (Result-cases (address.digest (encode_cas_node hex n))) [
          | inr (x, d) ↦ refused (store_failure x) (ground arith)
          | inl (id, d) ↦ elim (Result-cases (admission_facts hex address world_reader n id w).0) [
            | inr (x, f) ↦ refused x (ground (arith, facts_pure n id w))
            | inl (facts, f) ↦
                let valid = is_node_input_sound n e in
                let known : n.kind.version ≡ cas_scheme_version = ground arith in
                rw (put_settles id facts valid known d f)
                  (settle_step id facts valid known d f _ refl)
          ]
        ]
      ]
    ]
