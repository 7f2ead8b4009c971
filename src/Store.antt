-- ===== src/Store.antt =====
-- library/effects/src/cas/Store.ts: the store law over a backend's seams. `S` is the world that the
-- seams read and change; the digest is a parameter, as in the source, and so are the clock and the
-- optional word log.
pub mod Verify
pub mod Memory
pub mod Kvs
use foldlab.Base.{
  ℕ, ◌≡◌, Bool, true, false, Option, none, some, List, [], ◌∷◌, ◌==◌, not, length, text_eq,
  if◌then◌else◌, Result, ok, err, Eff, succeed, fail, ◌>>=◌, ◌>>◌, map_error, lift,
}
use foldlab.Node.{
  ContentId, IsContentId, HexCodec, CasReference, CasNodeInput, CasError, FailureReason,
  is_node_input, non_canonical_bytes, unknown_kind, dangling_reference, wrong_kind_reference,
  content_not_found, address_mismatch, store_failure, backend_failed, digest_failed, invalid_input,
  collision_at, refused_own_encoding, receipt_not_written,
}
use foldlab.Codec.{bytes_equal, encode_cas_node, decode_cas_node, cas_scheme_version}
use foldlab.Admission.{AdmissionFacts, AdmissionVerdict, judge_admission}
use foldlab.WordLog.{WordLogAppend}
use foldlab.Backend.{BackendFailure, ByteReader, ByteWriter}

-- The abstract address function. Its answers carry the brand of identifiers.
pub record CasAddress : Type 0 where
  pub digest : List ℕ → Result FailureReason ContentId
  pub digest-IsContentId : (bs : List ℕ) (id : ContentId) → digest bs ≡ ok id → IsContentId id

pub data PutOutcome : Type 0 where
  fresh : ContentId → PutOutcome
  duplicate : ContentId → PutOutcome

pub outcome_id : PutOutcome → ContentId
outcome_id (fresh id) = id
outcome_id (duplicate id) = id

pub record ReceiptLog (S : Type 0) : Type 0 where
  pub append : WordLogAppend → Eff S BackendFailure (Unit {0})

-- `backendFailure`: a seam that could not answer is a store failure. The identifier is that of the
-- put or load that asked.
pub backend_failure : ContentId → BackendFailure → CasError
backend_failure id failure = store_failure (backend_failed id)

pub ensure_known_kind : CasNodeInput → Result CasError (Unit {0})
ensure_known_kind node =
    if node.kind.version == cas_scheme_version
    then ok tt
    else err (unknown_kind node.kind.version node.kind.tag)

pub validate_node : CasNodeInput → Result CasError CasNodeInput
validate_node input = if is_node_input input then ok input else err (store_failure invalid_input)

abbrev pub digest_error : Result FailureReason ContentId → Result CasError ContentId
digest_error (ok id) = ok id
digest_error (err reason) = err (store_failure reason)

module _ (hex : HexCodec) (address : CasAddress) where
  -- The end of `verifyNodeBytes`, once the bytes decode canonically: known kind, then the address.
  verify_decoded : ContentId → List ℕ → CasNodeInput → Result CasError CasNodeInput
  unfolding ensure_known_kind
  verify_decoded id bytes node = elim (ensure_known_kind node) [
    | err e ↦ err e
    | ok _ ↦ elim (digest_error (address.digest bytes)) [
      | err e ↦ err e
      | ok actual ↦ if not (text_eq actual id) then err (address_mismatch id actual) else ok node
    ]
  ]

  -- The copies that the source makes of bytes and nodes are the values themselves.
  unfoldable pub verify_node_bytes : ContentId → List ℕ → Result CasError CasNodeInput
  unfolding verify_decoded
  verify_node_bytes id bytes = elim (decode_cas_node hex bytes) [
    | none ↦ err (non_canonical_bytes id)
    | some node ↦
        if not (bytes_equal (encode_cas_node hex node) bytes)
        then err (non_canonical_bytes id)
        else verify_decoded id bytes node
  ]

  module _ {S : Type 0} (reader : ByteReader S) where
    load_resident : ContentId → Option (List ℕ) → Eff S CasError CasNodeInput
    load_resident id none = fail (content_not_found id)
    load_resident id (some bytes) = lift (verify_node_bytes id bytes)

    pub load : ContentId → Eff S CasError CasNodeInput
    unfolding load_resident
    load id = do
      resident ← map_error (backend_failure id) (reader.load_bytes id)
      load_resident id resident

    resident_tag : ContentId → Option (List ℕ) → Eff S CasError (Option ℕ)
    resident_tag id none = succeed none
    resident_tag id (some bytes) = do
      verified ← lift (verify_node_bytes id bytes)
      succeed (some verified.kind.tag)

    -- The loop of `admissionFacts` over the references.
    pub reference_tags : List CasReference → Eff S CasError (List (Option ℕ))
    unfolding resident_tag
    reference_tags [] = succeed []
    reference_tags (ref ∷ refs) = do
      resident ← map_error (backend_failure ref.id) (reader.load_bytes ref.id)
      tag ← resident_tag ref.id resident
      rest ← reference_tags refs
      succeed (tag ∷ rest)

    unfoldable pub admission_facts : CasNodeInput → ContentId → Eff S CasError AdmissionFacts
    unfolding reference_tags
    admission_facts node id = do
      tags ← reference_tags node.refs
      resident ← map_error (backend_failure id) (reader.load_bytes id)
      succeed (record { ref_tags = tags; resident = resident })

    module _ (writer : ByteWriter S) (now : S → ℕ) (word_log : Option (ReceiptLog S)) where
      write_receipt : CasNodeInput → ContentId → Option (ReceiptLog S) → Eff S CasError (Unit {0})
      write_receipt node id none s = (ok tt, s)
      write_receipt node id (some log) s =
          map_error (λ failure. store_failure (receipt_not_written id))
            (log.append (record {
              address = id;
              at = now s;
              size = length node.payload;
              tag = node.kind.tag;
            }))
            s

      -- The switch on the verdict.
      pub settle : CasNodeInput → List ℕ → ContentId → AdmissionVerdict → Eff S CasError PutOutcome
      unfolding write_receipt
      settle node bytes id (AdmissionVerdict.dangling_reference missing) =
          fail (dangling_reference missing)
      settle node bytes id (AdmissionVerdict.wrong_kind_reference ref expected actual) =
          fail (wrong_kind_reference ref expected actual)
      settle node bytes id AdmissionVerdict.collision = fail (store_failure (collision_at id))
      settle node bytes id (AdmissionVerdict.already_resident _) = succeed (duplicate id)
      settle node bytes id AdmissionVerdict.non_canonical =
          fail (store_failure refused_own_encoding)
      settle node bytes id (AdmissionVerdict.unknown_kind version tag) =
          fail (store_failure refused_own_encoding)
      settle node bytes id (AdmissionVerdict.admit _) = do
        map_error (backend_failure id) (writer.put_bytes id bytes)
        write_receipt node id word_log
        succeed (fresh id)

      pub put_outcome : CasNodeInput → Eff S CasError PutOutcome
      unfolding settle validate_node ensure_known_kind
      put_outcome input = do
        node ← lift (validate_node input)
        lift (ensure_known_kind node)
        id ← lift (digest_error (address.digest (encode_cas_node hex node)))
        facts ← admission_facts node id
        settle node (encode_cas_node hex node) id
            (judge_admission hex (encode_cas_node hex node) facts)

      unfoldable pub put : CasNodeInput → Eff S CasError ContentId
      unfolding outcome_id
      put node = do outcome ← put_outcome node; succeed (outcome_id outcome)
