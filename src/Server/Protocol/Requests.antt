-- ===== src/Server/Protocol/Requests.antt =====
-- Every request has a spelling that the wire law reads back.
use foldlab.Base.{
  ℕ, ◌≡◌, ◌≤◌, refl, ◌∙◌, Option, none, some, List, [], ◌++◌, length, All, text_eq, if◌then◌else◌,
}
use foldlab.Node.{ContentId, IsContentId, HexCodec, max_uint32}
use foldlab.Node.Checks.{is_content_id_complete}
use foldlab.Wire.{encode_key_list_document}
use foldlab.Wire.Documents.{decode-encode_key_list_document}
use foldlab.Server.Protocol.{
  CasServerPolicy, Principal, anonymous, bearer, CasRequest, read_capabilities, query_presence,
  load_node, read_root, upload_node, publish_root, WireFacts, WireDecision, refused, accepted,
  refusal_of, unauthenticated, not_permitted, operation_class, authenticate, authorized, accept,
  accept_keys, decide_node, decide_root, decide_resource, decide_principal, decide, strip_prefix,
  resource_path, resource_id, octet_stream, code_units,
}

module _ (hex : HexCodec) where
  -- The exchange that asks for an operation, with the credentials of the caller.
  abbrev pub request_facts : CasRequest → Option (List ℕ) → WireFacts
  request_facts read_capabilities authorization = record {
    method = code_units "GET";
    path = code_units "/control/capabilities";
    profile = some (code_units "cas-http/0");
    authorization = authorization;
    content_type = none;
    body = [];
  }
  request_facts (query_presence keys) authorization = record {
    method = code_units "POST";
    path = code_units "/control/missing";
    profile = some (code_units "cas-http/0");
    authorization = authorization;
    content_type = some octet_stream;
    body = encode_key_list_document hex keys;
  }
  request_facts (load_node id) authorization = record {
    method = code_units "GET";
    path = code_units "/cas/" ++ id;
    profile = some (code_units "cas-http/0");
    authorization = authorization;
    content_type = none;
    body = [];
  }
  request_facts (read_root root) authorization = record {
    method = code_units "GET";
    path = code_units "/roots/" ++ root;
    profile = some (code_units "cas-http/0");
    authorization = authorization;
    content_type = none;
    body = [];
  }
  request_facts (upload_node id bytes) authorization = record {
    method = code_units "PUT";
    path = code_units "/cas/" ++ id;
    profile = some (code_units "cas-http/0");
    authorization = authorization;
    content_type = some octet_stream;
    body = bytes;
  }
  request_facts (publish_root root closure) authorization = record {
    method = code_units "PUT";
    path = code_units "/roots/" ++ root;
    profile = some (code_units "cas-http/0");
    authorization = authorization;
    content_type = some octet_stream;
    body = encode_key_list_document hex closure;
  }

-- A list of identifiers that a document can hold.
abbrev pub IsKeyList : List ContentId → Type 0
IsKeyList keys = All IsContentId keys × (length keys ≤ max_uint32)

-- The identifiers of a request are identifiers.
abbrev pub IsRequest : CasRequest → Type 0
IsRequest read_capabilities = Unit
IsRequest (query_presence keys) = IsKeyList keys
IsRequest (load_node id) = IsContentId id
IsRequest (read_root root) = IsContentId root
IsRequest (upload_node id bytes) = IsContentId id
IsRequest (publish_root root closure) = IsContentId root × IsKeyList closure

module _ (utf8 : List ℕ → List ℕ) (hex : HexCodec) (policy : CasServerPolicy)
    (authorization : Option (List ℕ)) where
  -- The answer to a principal: the operation, or the refusal that the principal has.
  abbrev pub admission : Principal → CasRequest → WireDecision
  admission p request =
      if authorized utf8 hex policy p (operation_class request)
      then accepted p request
      else refused (elim p [ anonymous ↦ unauthenticated | bearer ↦ not_permitted ])

  accept-admission : (p : Principal) (r : CasRequest) → accept utf8 hex policy p r ≡ admission p r
  unfolding accept refusal_of
  accept-admission anonymous r = refl
  accept-admission bearer r = refl

  abbrev Read : CasRequest → Principal → Type 0
  Read request p =
      decide_resource utf8 hex policy (request_facts hex request authorization) p
      ≡ accept utf8 hex policy p request

  resource-Read : (request : CasRequest) (p : Principal) → IsRequest request → Read request p
  unfolding decide_resource decide_root decide_node resource_path resource_id strip_prefix
      accept_keys text_eq
  resource-Read read_capabilities p h = refl
  resource-Read (query_presence keys) p (h, k) =
      rw (decode-encode_key_list_document hex keys h k) refl
  resource-Read (load_node id) p h = rw (is_content_id_complete id h) refl
  resource-Read (read_root root) p h = rw (is_content_id_complete root h) refl
  resource-Read (upload_node id bytes) p h = rw (is_content_id_complete id h) refl
  resource-Read (publish_root root closure) p (r, (h, k)) =
      rw (is_content_id_complete root r, decode-encode_key_list_document hex closure h k) refl

  -- The answer to a caller, by the principal that the credentials authenticate, if any.
  abbrev pub answer : Option Principal → CasRequest → WireDecision
  answer none request = refused unauthenticated
  answer (some p) request = admission p request

  decide-principal :
      (request : CasRequest) (caller : Option Principal)
      → IsRequest request
      → decide_principal utf8 hex policy (request_facts hex request authorization) caller
        ≡ answer caller request
  unfolding decide_principal
  decide-principal request none h = refl
  decide-principal request (some p) h = resource-Read request p h ∙ accept-admission p request

  -- Every request is read back from its exchange: as that request where the caller authenticates and is
  -- authorized for its class. A caller that does not authenticate is refused as unauthenticated, and one that
  -- is not authorized as unauthenticated where it is anonymous and as not permitted where it is a bearer.
  pub decide-request_facts :
      (request : CasRequest)
      → IsRequest request
      → decide utf8 hex policy (request_facts hex request authorization)
        ≡ answer (authenticate utf8 hex policy authorization) request
  unfolding decide text_eq
  decide-request_facts read_capabilities h = decide-principal read_capabilities _ h
  decide-request_facts (query_presence keys) h = decide-principal (query_presence keys) _ h
  decide-request_facts (load_node id) h = decide-principal (load_node id) _ h
  decide-request_facts (read_root root) h = decide-principal (read_root root) _ h
  decide-request_facts (upload_node id bytes) h = decide-principal (upload_node id bytes) _ h
  decide-request_facts (publish_root root closure) h =
      decide-principal (publish_root root closure) _ h
