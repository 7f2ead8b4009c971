-- ===== src/Server/Core/Uploads.antt =====
-- What an upload writes, over the in-memory backend, and what a load serves after it.
use foldlab.Base.{
  ℕ, ◌≡◌, refl, sym, ap, ◌∙◌, ok, Option, none, some, Option-cases, Result-cases, inl, inr, List,
  [], ◌∷◌, All, length, arith, false, Bool-cases, ltb, text_eq, text_eq_iff,
}
use mathlib.Core.Path.{subst}
use foldlab.Node.{ContentId, IsByte, HexCodec, CasReference, CasNodeInput}
use foldlab.Node.Checks.{IsNode}
use foldlab.Codec.{encode_cas_node, cas_scheme_version}
use foldlab.Codec.RoundTrip.{decode-IsNode}
use foldlab.Admission.{
  AdmissionFacts, AdmissionVerdict, admit, already_resident, non_canonical, unknown_kind,
  dangling_reference, wrong_kind_reference, collision, canonical_node, judge_admission,
}
use foldlab.Admission.Verdicts.{Resolves, judge-admitted, judge-joined, canonical_node-decodes}
use foldlab.Backend.{lookup}
use foldlab.Store.{CasAddress, verify_node_bytes}
use foldlab.Store.Memory.{World, world_reader, world_writer, world_roots}
use foldlab.Store.Memory.Steps.{IsResident, IsPutAt, written}
use foldlab.Server.Protocol.{
  CasServerPolicy, Principal, CasOutcome, upload_node, admitted, already_admitted,
  backend_unavailable, node_budget_exceeded, digest_mismatch, admission_refused, non_canonical_tag,
}
use foldlab.Server.Core.{
  verified_tags, server_facts, conclude, upload_decoded, serve_upload, respond, serve, caught,
}

module _ (hex : HexCodec) (address : CasAddress) where
  pub tags_pure :
      (refs : List CasReference) (w : World) → (verified_tags hex address world_reader refs w).1 ≡ w
  unfolding verified_tags world_reader
  tags_pure [] w = refl
  tags_pure (ref ∷ refs) w = ground (arith, tags_pure refs w)

  facts_pure :
      (refs : List CasReference) (id : ContentId) (w : World)
      → (server_facts hex address world_reader id refs w).1 ≡ w
  unfolding server_facts world_reader
  facts_pure refs id w = ground (arith, tags_pure refs w)

  facts_resident :
      (refs : List CasReference) (id : ContentId) (w : World) (facts : AdmissionFacts)
      → (server_facts hex address world_reader id refs w).0 ≡ ok facts
      → facts.resident ≡ lookup id w.plane.nodes
  unfolding server_facts world_reader
  facts_resident refs id w facts h = ground (arith, tags_pure refs w)

  facts_tags :
      (refs : List CasReference) (id : ContentId) (w : World) (facts : AdmissionFacts)
      → (server_facts hex address world_reader id refs w).0 ≡ ok facts
      → (verified_tags hex address world_reader refs w).0 ≡ ok facts.ref_tags
  unfolding server_facts world_reader
  facts_tags refs id w facts h = ground (arith, tags_pure refs w)

  resolved-IsResident :
      (refs : List CasReference) (w : World) (tags : List (Option ℕ))
      → (verified_tags hex address world_reader refs w).0 ≡ ok tags
      → Resolves refs tags
      → All (IsResident hex address w) refs
  unfolding verified_tags world_reader
  resolved-IsResident [] w tags h r = tt
  resolved-IsResident (ref ∷ refs) w [] h r = absurd r
  resolved-IsResident (ref ∷ refs) w (tag ∷ tags) h r =
      elim (Option-cases (lookup ref.id w.plane.nodes)) [
        | inl e ↦ absurd (ground arith)
        | inr (b, e) ↦ elim (Result-cases (verify_node_bytes hex address ref.id b)) [
          | inl (m, v) ↦ (
            record { bytes = b; node = m; held = e; verified = v; typed = ground arith },
            resolved-IsResident refs w tags (ground arith) r.1,
          )
          | inr (x, v) ↦ absurd (ground arith)
        ]
      ]

  module _ (policy : CasServerPolicy) (w : World) (id : ContentId) (bytes : List ℕ) where
    -- The node that an accepted upload spells, and its place.
    pub record IsUpload (n : CasNodeInput) : Type 0 where
      pub encoded : encode_cas_node hex n ≡ bytes
      pub placed : IsPutAt hex address false n w id

    -- The three ways in which an upload ends.
    pub data UploadStep (p : CasOutcome × World) : Type 0 where
      entered :
          (n : CasNodeInput)
          → IsUpload n
          → lookup id w.plane.nodes ≡ none
          → p ≡ (admitted, written hex address false n w id)
          → UploadStep p
      joined :
          (n : CasNodeInput)
          → IsUpload n
          → lookup id w.plane.nodes ≡ some bytes
          → p ≡ (already_admitted, w)
          → UploadStep p
      refused :
          (o : CasOutcome) → p ≡ (o, w) → ¬ (o ≡ admitted) → ¬ (o ≡ already_admitted) → UploadStep p

    IsUpload-at :
        (n : CasNodeInput) (facts : AdmissionFacts)
        → IsNode n
        → encode_cas_node hex n ≡ bytes
        → address.digest bytes ≡ ok id
        → (server_facts hex address world_reader id n.refs w).0 ≡ ok facts
        → n.kind.version ≡ cas_scheme_version
        → Resolves n.refs facts.ref_tags
        → IsUpload n
    IsUpload-at n facts valid e d f known r = record {
      encoded = e;
      placed = record {
        valid = valid;
        known = known;
        addressed = ap address.digest e ∙ d;
        resolved = resolved-IsResident n.refs w facts.ref_tags (facts_tags n.refs id w facts f) r;
      };
    }

    conclude_step :
        (n : CasNodeInput) (facts : AdmissionFacts)
        → IsNode n
        → encode_cas_node hex n ≡ bytes
        → address.digest bytes ≡ ok id
        → (server_facts hex address world_reader id n.refs w).0 ≡ ok facts
        → (v : AdmissionVerdict) → judge_admission hex bytes facts ≡ v
        → UploadStep (
            let (r, t) = conclude hex address world_reader world_writer policy id bytes v w in
            (caught r, t))
    unfolding conclude world_writer
    conclude_step n facts valid e d f (admit m) j =
        let (a, r) =
          judge-admitted hex n valid facts m (ap (λ b. judge_admission hex b facts) e ∙ j) in
        let absent : lookup id w.plane.nodes ≡ none =
          sym (facts_resident n.refs id w facts f) ∙ r in
        entered n (IsUpload-at n facts valid e d f a.0 a.1) absent (ground arith)
    conclude_step n facts valid e d f (already_resident m) j =
        let (a, r) =
          judge-joined hex n valid facts m (ap (λ b. judge_admission hex b facts) e ∙ j) in
        joined n (IsUpload-at n facts valid e d f a.0 a.1)
          (sym (facts_resident n.refs id w facts f) ∙ r ∙ ap some e) refl
    conclude_step n facts valid e d f non_canonical j = refused _ refl (λ k. cc) (λ k. cc)
    conclude_step n facts valid e d f (unknown_kind a b) j = refused _ refl (λ k. cc) (λ k. cc)
    conclude_step n facts valid e d f (dangling_reference a) j = refused _ refl (λ k. cc) (λ k. cc)
    conclude_step n facts valid e d f (wrong_kind_reference a b c) j =
        refused _ refl (λ k. cc) (λ k. cc)
    conclude_step n facts valid e d f collision j = refused _ refl (λ k. cc) (λ k. cc)

    pub upload_step :
        (principal : Principal)
        → All IsByte bytes
        → UploadStep (
            serve hex address world_reader world_writer policy world_roots principal
              (upload_node id bytes)
              w)
    unfolding serve respond serve_upload upload_decoded
    upload_step principal all = elim (Bool-cases (ltb policy.max_node_bytes (length bytes))) [
      | inl e ↦ refused node_budget_exceeded (ground arith) (λ k. cc) (λ k. cc)
      | inr e ↦ elim (Result-cases (address.digest bytes)) [
        | inr (x, d) ↦ refused backend_unavailable (ground arith) (λ k. cc) (λ k. cc)
        | inl (actual, d) ↦ elim (Bool-cases (text_eq actual id)) [
          | inr t ↦ refused digest_mismatch (ground arith) (λ k. cc) (λ k. cc)
          | inl t ↦ elim (Option-cases (canonical_node hex bytes)) [
            | inl c ↦
                refused (admission_refused non_canonical_tag) (ground arith) (λ k. cc) (λ k. cc)
            | inr (n, c) ↦
                elim (Result-cases (server_facts hex address world_reader id n.refs w).0) [
                  | inr (x, f) ↦
                      refused backend_unavailable (ground (arith, facts_pure n.refs id w)) (λ k. cc)
                        (λ k. cc)
                  | inl (facts, f) ↦
                      let (dec, enc) = canonical_node-decodes hex bytes n c in
                      let step =
                        conclude_step n facts (decode-IsNode hex bytes n all dec) enc
                          (d ∙ ap ok ((text_eq_iff actual id).0 t)) f _ refl in
                      subst UploadStep (ground (arith, facts_pure n.refs id w)) step
                ]
          ]
        ]
      ]
    ]
