-- ===== src/Server/Core.antt =====
-- library/effects/src/server/Core.ts: the closed request algebra interpreted over the seams.
pub mod Uploads
pub mod Agreement
pub mod Keeps
pub mod Closure
pub mod Roots
use foldlab.Base.{
  ℕ, Bool, true, false, Option, none, some, List, [], ◌∷◌, not, length, text_eq, ltb, if◌then◌else◌,
  Result, ok, err, Eff, succeed, fail, ◌>>=◌, ◌>>◌, map_err, lift,
}
use foldlab.Node.{ContentId, HexCodec, CasReference, CasNodeInput}
use foldlab.Admission.{AdmissionFacts, AdmissionVerdict, canonical_node, judge_admission}
use foldlab.Backend.{
  BackendFailure, PresenceStatus, ByteReader, ByteWriter, RootStore, missing, present, failed,
  contains, reference_unverified,
}
use foldlab.Store.{CasAddress, verify_node_bytes}
use foldlab.Server.Protocol.{
  CasServerPolicy, Principal, CasRequest, CasOutcome, VerdictTag, read_capabilities, query_presence,
  load_node, read_root, upload_node, publish_root, admission_refused, admitted, already_admitted,
  backend_unavailable, batch_budget_exceeded, capabilities, closure_unverified, digest_mismatch,
  node_absent, node_budget_exceeded, node_bytes, presence, published, root_absent, root_published,
  non_canonical_tag, unknown_kind_tag, dangling_reference_tag, wrong_kind_reference_tag,
  collision_tag,
}

-- `held.some((presence) => presence !== "present")`.
pub some_absent : List PresenceStatus → Bool
some_absent [] = false
some_absent (present ∷ rest) = some_absent rest
some_absent (missing ∷ rest) = true
some_absent (failed ∷ rest) = true

-- `Effect.catchTag("CasBackendFailure", ...)`: a backend that cannot answer is an outcome.
abbrev pub caught : Result BackendFailure CasOutcome → CasOutcome
caught (ok outcome) = outcome
caught (err failure) = backend_unavailable

module _ (hex : HexCodec) (address : CasAddress) {S : Type 0} (reader : ByteReader S) where
  verified_tag : ContentId → Option (List ℕ) → Eff S BackendFailure (Option ℕ)
  verified_tag id none = succeed none
  verified_tag id (some bytes) = do
    verified ←
        lift (map_err (λ e. reference_unverified id) (verify_node_bytes hex address id bytes))
    succeed (some verified.kind.tag)

  -- The loop of `admissionFacts` over the references.
  pub verified_tags : List CasReference → Eff S BackendFailure (List (Option ℕ))
  unfolding verified_tag
  verified_tags [] = succeed []
  verified_tags (ref ∷ refs) = do
    resident ← reader.load_bytes ref.id
    tag ← verified_tag ref.id resident
    rest ← verified_tags refs
    succeed (tag ∷ rest)

  pub server_facts : ContentId → List CasReference → Eff S BackendFailure AdmissionFacts
  unfolding verified_tags
  server_facts id refs = do
    tags ← verified_tags refs
    resident ← reader.load_bytes id
    succeed (record { ref_tags = tags; resident = resident })

  load_outcome : Option (List ℕ) → CasOutcome
  load_outcome none = node_absent
  load_outcome (some bytes) = node_bytes bytes

  serve_load : ContentId → Eff S BackendFailure CasOutcome
  unfolding load_outcome
  serve_load id = do resident ← reader.load_bytes id; succeed (load_outcome resident)

  module _ (policy : CasServerPolicy) where
    serve_presence : List ContentId → Eff S BackendFailure CasOutcome
    serve_presence keys =
        if ltb policy.max_batch_keys (length keys)
        then succeed batch_budget_exceeded
        else do statuses ← reader.presence keys; succeed (presence statuses)

  module _ (roots : RootStore S) where
    serve_root : ContentId → Eff S BackendFailure CasOutcome
    serve_root root = do
      listed ← roots.list
      succeed (if contains root listed then root_published else root_absent)

    publish_held : ContentId → List PresenceStatus → Eff S BackendFailure CasOutcome
    unfolding some_absent
    publish_held root held =
        if some_absent held
        then succeed closure_unverified
        else do roots.publish root; succeed published

    serve_publish : ContentId → List ContentId → Eff S BackendFailure CasOutcome
    unfolding publish_held
    serve_publish root closure = do held ← reader.presence (root ∷ closure); publish_held root held

  module _ (writer : ByteWriter S) (policy : CasServerPolicy) where
    -- The switch on the verdict.
    conclude : ContentId → List ℕ → AdmissionVerdict → Eff S BackendFailure CasOutcome
    conclude id bytes (AdmissionVerdict.admit _) = do writer.put_bytes id bytes; succeed admitted
    conclude id bytes (AdmissionVerdict.already_resident _) = succeed already_admitted
    conclude id bytes AdmissionVerdict.non_canonical = succeed (admission_refused non_canonical_tag)
    conclude id bytes (AdmissionVerdict.unknown_kind version tag) =
        succeed (admission_refused unknown_kind_tag)
    conclude id bytes (AdmissionVerdict.dangling_reference absent) =
        succeed (admission_refused dangling_reference_tag)
    conclude id bytes (AdmissionVerdict.wrong_kind_reference ref expected actual) =
        succeed (admission_refused wrong_kind_reference_tag)
    conclude id bytes AdmissionVerdict.collision = succeed (admission_refused collision_tag)

    -- The end of `uploadNode`, once the bytes are at their address.
    upload_decoded : ContentId → List ℕ → Option CasNodeInput → Eff S BackendFailure CasOutcome
    unfolding conclude server_facts
    upload_decoded id bytes none = succeed (admission_refused non_canonical_tag)
    upload_decoded id bytes (some node) = do
      facts ← server_facts id node.refs
      conclude id bytes (judge_admission hex bytes facts)

    serve_upload : ContentId → List ℕ → Eff S BackendFailure CasOutcome
    unfolding upload_decoded
    serve_upload id bytes =
        if ltb policy.max_node_bytes (length bytes)
        then succeed node_budget_exceeded
        else elim (address.digest bytes) [
          | err reason ↦ succeed backend_unavailable
          | ok actual ↦
              if not (text_eq actual id)
              then succeed digest_mismatch
              else upload_decoded id bytes (canonical_node hex bytes)
        ]

    module _ (roots : RootStore S) where
      respond : Principal → CasRequest → Eff S BackendFailure CasOutcome
      unfolding serve_load serve_presence serve_root serve_publish serve_upload
      respond principal (load_node id) = serve_load id
      respond principal (publish_root root closure) = serve_publish roots root closure
      respond principal (query_presence keys) = serve_presence policy keys
      respond principal read_capabilities =
          succeed (capabilities policy.max_batch_keys policy.max_node_bytes)
      respond principal (read_root root) = serve_root roots root
      respond principal (upload_node id bytes) = serve_upload id bytes

      -- Total: every request has an outcome.
      unfoldable pub serve : Principal → CasRequest → S → CasOutcome × S
      unfolding respond
      serve principal request s = let (r, t) = respond principal request s in (caught r, t)
