-- ===== src/Server/Core/Agreement.antt =====
-- An upload and a put are the same admission.
use foldlab.Base.{
  ◌≡◌, refl, sym, ap, ◌∙◌, ◌↔◌, ◌≤◌, ok, Result, none, some, List, [], ◌∷◌, All, length, arith,
  false, text_eq_refl,
}
use mathlib.Core.Path.{subst}
use foldlab.Node.{ContentId, HexCodec, CasReference, CasNodeInput, CasError}
use foldlab.Node.Checks.{IsNode}
use foldlab.Codec.{encode_cas_node, decode_cas_node}
use foldlab.Codec.RoundTrip.{decode-encode_cas_node}
use foldlab.Codec.Output.{encode_cas_node-IsByte}
use foldlab.Admission.{AdmissionFacts}
use foldlab.Admission.Verdicts.{judge-admit_iff, judge-already_resident_iff, canonical_node-encode}
use foldlab.Backend.{lookup}
use foldlab.Store.{CasAddress, PutOutcome, fresh, duplicate}
use foldlab.Store.Memory.{World, world_reader, world_writer, world_roots, memory_put_outcome}
use foldlab.Store.Memory.Steps.{
  IsResident, IsPutAt, PutStep, admitted as entered_put, joined as joined_put,
  refused as refused_put, written, put_step,
}
use foldlab.Store.Memory.Complete.{declared, declared-Resolves, put-admits, put-joins}
use foldlab.Server.Protocol.{
  CasServerPolicy, Principal, CasOutcome, upload_node, admitted, already_admitted,
}
use foldlab.Server.Core.{
  verified_tags, server_facts, conclude, upload_decoded, serve_upload, respond, serve,
}
use foldlab.Server.Core.Uploads.{
  tags_pure, IsUpload, UploadStep, entered, joined, refused, upload_step,
}

module _ (hex : HexCodec) (address : CasAddress) where
  tags-declared :
      (refs : List CasReference) (w : World)
      → All (IsResident hex address w) refs
      → (verified_tags hex address world_reader refs w).0 ≡ ok (declared refs)
  unfolding verified_tags world_reader
  tags-declared [] w h = refl
  tags-declared (ref ∷ refs) w (h, hs) =
      ground
        (arith, h.held, h.verified, h.typed, tags_pure hex address refs w, tags-declared refs w hs)

  module _ (policy : CasServerPolicy) (principal : Principal) (n : CasNodeInput) (w : World)
      (id : ContentId) where
    abbrev pub upload : CasOutcome × World
    upload =
        serve hex address world_reader world_writer policy world_roots principal
          (upload_node id (encode_cas_node hex n)) w

    module _ (at : IsPutAt hex address false n w id)
        (small : length (encode_cas_node hex n) ≤ policy.max_node_bytes) where
      abbrev facts : AdmissionFacts
      facts = record { ref_tags = declared n.refs; resident = lookup id w.plane.nodes }

      facts-held : server_facts hex address world_reader id n.refs w ≡ (ok facts, w)
      unfolding server_facts world_reader
      facts-held =
          ground (arith, tags-declared n.refs w at.resolved, tags_pure hex address n.refs w)

      upload-admits :
          lookup id w.plane.nodes ≡ none → upload ≡ (admitted, written hex address false n w id)
      unfolding serve respond serve_upload upload_decoded conclude world_writer
      upload-admits h =
          let j =
            (judge-admit_iff hex n at.valid facts).1 ((at.known, declared-Resolves n.refs), h) in
          ground
            (arith, canonical_node-encode hex n at.valid, at.addressed, text_eq_refl id, facts-held)

      upload-joins :
          lookup id w.plane.nodes ≡ some (encode_cas_node hex n) → upload ≡ (already_admitted, w)
      unfolding serve respond serve_upload upload_decoded conclude
      upload-joins h =
          let j =
            (judge-already_resident_iff hex n at.valid facts).1
              ((at.known, declared-Resolves n.refs), h) in
          ground
            (arith, canonical_node-encode hex n at.valid, at.addressed, text_eq_refl id, facts-held)

    module _ (valid : IsNode n) where
      same : (m : CasNodeInput) → IsUpload hex address policy w id (encode_cas_node hex n) m → m ≡ n
      same m u =
          let e : some m ≡ some n =
            sym (decode-encode_cas_node hex m u.placed.valid)
            ∙ ap (decode_cas_node hex) u.encoded
            ∙ decode-encode_cas_node hex n valid in
          cc

      placed :
          (m : CasNodeInput)
          → IsUpload hex address policy w id (encode_cas_node hex n) m
          → IsPutAt hex address false n w id
      placed m u = subst (λ t. IsPutAt hex address false t w id) (same m u) u.placed

      upload_fresh :
          (v : World) (p : CasOutcome × World)
          → upload ≡ p
          → UploadStep hex address policy w id (encode_cas_node hex n) p
          → p ≡ (admitted, v)
          → memory_put_outcome hex address false n w ≡ (ok (fresh id), v)
      upload_fresh v p q (entered m u absent e) h =
          put-admits hex address false n w id (placed m u) absent
          ∙ ap (λ x. (ok (fresh id), x))
              (ap (λ t. written hex address false t w id) (sym (same m u))
                ∙ ap (λ (t : CasOutcome × World). t.1) (sym e ∙ h))
      upload_fresh v p q (joined m u held e) h =
          cc (ap (λ (t : CasOutcome × World). t.0) (sym e ∙ h))
      upload_fresh v p q (refused o e na nj) h =
          absurd (na (ap (λ (t : CasOutcome × World). t.0) (sym e ∙ h)))

      upload_duplicate :
          (v : World) (p : CasOutcome × World)
          → upload ≡ p
          → UploadStep hex address policy w id (encode_cas_node hex n) p
          → p ≡ (already_admitted, v)
          → memory_put_outcome hex address false n w ≡ (ok (duplicate id), v)
      upload_duplicate v p q (entered m u absent e) h =
          cc (ap (λ (t : CasOutcome × World). t.0) (sym e ∙ h))
      upload_duplicate v p q (joined m u held e) h =
          put-joins hex address false n w id (placed m u) held
          ∙ ap (λ x. (ok (duplicate id), x)) (ap (λ (t : CasOutcome × World). t.1) (sym e ∙ h))
      upload_duplicate v p q (refused o e na nj) h =
          absurd (nj (ap (λ (t : CasOutcome × World). t.0) (sym e ∙ h)))

      module _ (small : length (encode_cas_node hex n) ≤ policy.max_node_bytes) where
        put_fresh :
            (v : World) (p : Result CasError PutOutcome × World)
            → PutStep hex address false n w p
            → p ≡ (ok (fresh id), v)
            → upload ≡ (admitted, v)
        put_fresh v p (entered_put k at absent e) h =
            let i : k ≡ id =
              ground (arith, ap (λ (t : Result CasError PutOutcome × World). t.0) (sym e ∙ h)) in
            let x : written hex address false n w k ≡ v =
              ap (λ (t : Result CasError PutOutcome × World). t.1) (sym e ∙ h) in
            let absent' : lookup id w.plane.nodes ≡ none =
              ap (λ t. lookup t w.plane.nodes) (sym i) ∙ absent in
            upload-admits (subst (IsPutAt hex address false n w) i at) small absent'
            ∙ ap (λ t. (admitted, t)) (ap (written hex address false n w) (sym i) ∙ x)
        put_fresh v p (joined_put k at held e) h =
            cc (ap (λ (t : Result CasError PutOutcome × World). t.0) (sym e ∙ h))
        put_fresh v p (refused_put x e) h =
            cc (ap (λ (t : Result CasError PutOutcome × World). t.0) (sym e ∙ h))

        put_duplicate :
            (v : World) (p : Result CasError PutOutcome × World)
            → PutStep hex address false n w p
            → p ≡ (ok (duplicate id), v)
            → upload ≡ (already_admitted, v)
        put_duplicate v p (entered_put k at absent e) h =
            cc (ap (λ (t : Result CasError PutOutcome × World). t.0) (sym e ∙ h))
        put_duplicate v p (joined_put k at held e) h =
            let i : k ≡ id =
              ground (arith, ap (λ (t : Result CasError PutOutcome × World). t.0) (sym e ∙ h)) in
            let x : w ≡ v = ap (λ (t : Result CasError PutOutcome × World). t.1) (sym e ∙ h) in
            upload-joins (subst (IsPutAt hex address false n w) i at) small
              (ap (λ t. lookup t w.plane.nodes) (sym i) ∙ held)
            ∙ ap (λ t. (already_admitted, t)) x
        put_duplicate v p (refused_put x e) h =
            cc (ap (λ (t : Result CasError PutOutcome × World). t.0) (sym e ∙ h))

        -- Over the in-memory backend, and within the byte budget, an upload of the encoding of a valid
        -- node under an identifier admits exactly where a put of the node answers that identifier as
        -- fresh, joins exactly where the put answers it as a duplicate, and leaves the same world.
        pub upload-put :
            (v : World)
            → ((upload ≡ (admitted, v))
                ↔ (memory_put_outcome hex address false n w ≡ (ok (fresh id), v)))
              × ((upload ≡ (already_admitted, v))
                  ↔ (memory_put_outcome hex address false n w ≡ (ok (duplicate id), v)))
        upload-put v =
            let step =
              upload_step hex address policy w id (encode_cas_node hex n) principal
                (encode_cas_node-IsByte hex n valid) in
            let puts = put_step hex address false n w in
            (
              (upload_fresh v upload refl step, put_fresh v _ puts),
              (upload_duplicate v upload refl step, put_duplicate v _ puts),
            )
