-- ===== src/Tests/WireRuns.antt =====
-- The wire documents and the wire law at concrete inputs.
use foldlab.Base.{ℕ, ◌≡◌, refl, ap, ◌∙◌, true, some, List, [], ◌∷◌, ◌++◌, arith, Option}
use foldlab.Backend.{missing, present}
use foldlab.Wire.{
  RemoteCapabilities, encode_presence_document, decode_presence_document, encode_key_list_document,
  decode_key_list_document,
}
use foldlab.Wire.Documents.{
  by_answer, decode-encode_presence_document, decode-encode_key_list_document,
  encode-decode_key_list_document,
}
use foldlab.Server.Protocol.{
  CasServerPolicy, bearer, operation_class, upload_node, accepted, decide, authenticate, authorized,
  is_text, code_units, bearer_prefix, strip_prefix,
}
use foldlab.Server.Protocol.WireLaw.{
  upload_changes, decide_sound, decide_credentialed, constant_time_equals_iff,
}
use foldlab.Server.Protocol.Requests.{request_facts, answer, decide-request_facts}
use foldlab.Tests.Hex.{lower_hex}
use foldlab.Tests.Fixtures.{chunk_id, chunk_id-IsContentId}

abbrev limits : RemoteCapabilities
limits = record { max_batch_keys = 1_000; max_blob_bytes = 70_000 }

decode-encode_presence_document_example :
    decode_presence_document
      (chunk_id ∷ chunk_id ∷ [])
      (encode_presence_document (present ∷ missing ∷ []))
    ≡ some (by_answer (chunk_id ∷ chunk_id ∷ []) (present ∷ missing ∷ []))
decode-encode_presence_document_example =
    decode-encode_presence_document (chunk_id ∷ chunk_id ∷ []) (present ∷ missing ∷ []) refl

decode-encode_key_list_document_example :
    decode_key_list_document lower_hex (encode_key_list_document lower_hex (chunk_id ∷ []))
    ≡ some (chunk_id ∷ [])
decode-encode_key_list_document_example =
    decode-encode_key_list_document lower_hex (chunk_id ∷ []) (chunk_id-IsContentId, tt)
      (omega arith)

encode-decode_key_list_document_example :
    encode_key_list_document lower_hex (chunk_id ∷ [])
    ≡ encode_key_list_document lower_hex (chunk_id ∷ [])
encode-decode_key_list_document_example =
    encode-decode_key_list_document lower_hex (encode_key_list_document lower_hex (chunk_id ∷ []))
      (chunk_id ∷ []) decode-encode_key_list_document_example

-- An authority with a credential, whose reads are open.
abbrev guarded : CasServerPolicy
guarded = record {
  max_batch_keys = 10;
  max_node_bytes = 100;
  credential = some (code_units "key");
  anonymous_reads = true;
}

abbrev plain : List ℕ → List ℕ
plain text = text

abbrev key_header : Option (List ℕ)
key_header = some (code_units "Bearer key")

bearer_read : authenticate plain lower_hex guarded key_header ≡ some bearer
unfolding authenticate strip_prefix
bearer_read =
    ground (
      arith,
      (constant_time_equals_iff plain lower_hex (code_units "key") (code_units "key")).1 refl,
    )

decide-request_facts_example :
    decide plain lower_hex guarded
      (request_facts lower_hex (upload_node chunk_id (7 ∷ [])) key_header)
    ≡ answer plain lower_hex guarded key_header
        (authenticate plain lower_hex guarded key_header)
        (upload_node chunk_id (7 ∷ []))
decide-request_facts_example =
    decide-request_facts plain lower_hex guarded key_header (upload_node chunk_id (7 ∷ []))
      chunk_id-IsContentId

upload_accepted :
    decide plain lower_hex guarded
      (request_facts lower_hex (upload_node chunk_id (7 ∷ [])) key_header)
    ≡ accepted bearer (upload_node chunk_id (7 ∷ []))
unfolding authorized
upload_accepted =
    decide-request_facts plain lower_hex guarded key_header (upload_node chunk_id (7 ∷ []))
      chunk_id-IsContentId
    ∙ ap
        (λ caller. answer plain lower_hex guarded key_header caller (upload_node chunk_id (7 ∷ [])))
        bearer_read

decide_sound_example :
    (is_text
        (request_facts lower_hex (upload_node chunk_id (7 ∷ [])) key_header).profile
        (code_units "cas-http/0")
      ≡ true)
    × (authenticate plain lower_hex guarded
          (request_facts lower_hex (upload_node chunk_id (7 ∷ [])) key_header).authorization
        ≡ some bearer)
    × (authorized plain lower_hex guarded bearer (operation_class (upload_node chunk_id (7 ∷ [])))
        ≡ true)
decide_sound_example =
    decide_sound plain lower_hex guarded
      (request_facts lower_hex (upload_node chunk_id (7 ∷ [])) key_header) bearer
      (upload_node chunk_id (7 ∷ [])) upload_accepted

decide_credentialed_example :
    (token : List ℕ) × ((request_facts lower_hex
        (upload_node chunk_id (7 ∷ []))
        key_header).authorization
      ≡ some (bearer_prefix ++ token))
    × (plain token ≡ plain (code_units "key"))
decide_credentialed_example =
    decide_credentialed plain lower_hex guarded
      (request_facts lower_hex (upload_node chunk_id (7 ∷ [])) key_header) bearer
      (upload_node chunk_id (7 ∷ [])) (code_units "key") refl (upload_changes chunk_id (7 ∷ []))
      upload_accepted
