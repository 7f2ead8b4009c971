-- ===== src/Server/Protocol.antt =====
-- library/effects/src/server/Protocol.ts: the request algebra, the outcomes, the wire law. The
-- status table is in Render.
pub mod WireLaw
pub mod Requests
pub mod Render
use foldlab.Base.{
  ℕ, Bool, true, false, Option, none, some, List, [], ◌∷◌, ◌++◌, ◌==◌, ◌||◌, ◌&&◌, not, length,
  text_eq, if◌then◌else◌,
}
use Prim.Native.Nat.{bit_or, bit_xor}
use Prim.Native.Char.{code}
use Prim.Native.String.{String}
use foldlab.Node.{ContentId, HexCodec, is_content_id}
use foldlab.Backend.{PresenceStatus}
use foldlab.Wire.{decode_key_list_document, encode_capability_document, encode_presence_document}

pub record CasServerPolicy : Type 0 where
  pub max_batch_keys : ℕ
  pub max_node_bytes : ℕ
  pub credential : Option (List ℕ)
  pub anonymous_reads : Bool

pub data Principal : Type 0 where
  anonymous bearer : Principal

pub data CasRequest : Type 0 where
  read_capabilities : CasRequest
  query_presence : List ContentId → CasRequest
  load_node : ContentId → CasRequest
  read_root : ContentId → CasRequest
  upload_node : ContentId → List ℕ → CasRequest
  publish_root : ContentId → List ContentId → CasRequest

pub data OperationClass : Type 0 where
  read write publish : OperationClass

unfoldable pub operation_class : CasRequest → OperationClass
operation_class (load_node id) = read
operation_class (publish_root root closure) = publish
operation_class (query_presence keys) = read
operation_class read_capabilities = read
operation_class (read_root root) = read
operation_class (upload_node id bytes) = write

-- The tags of the verdicts that refuse.
pub data VerdictTag : Type 0 where
  non_canonical_tag unknown_kind_tag dangling_reference_tag wrong_kind_reference_tag collision_tag :
      VerdictTag

pub data CasOutcome : Type 0 where
  admission_refused : VerdictTag → CasOutcome
  admitted : CasOutcome
  already_admitted : CasOutcome
  backend_unavailable : CasOutcome
  batch_budget_exceeded : CasOutcome
  capabilities : ℕ → ℕ → CasOutcome
  closure_unverified : CasOutcome
  digest_mismatch : CasOutcome
  node_absent : CasOutcome
  node_budget_exceeded : CasOutcome
  node_bytes : List ℕ → CasOutcome
  presence : List PresenceStatus → CasOutcome
  published : CasOutcome
  root_absent : CasOutcome
  root_published : CasOutcome

pub data WireRefusal : Type 0 where
  malformed_body method_not_allowed missing_profile not_permitted unauthenticated unknown_resource
        wrong_media_type :
      WireRefusal

-- What one HTTP exchange carries. Texts are lists of code units.
pub record WireFacts : Type 0 where
  pub method : List ℕ
  pub path : List ℕ
  pub profile : Option (List ℕ)
  pub authorization : Option (List ℕ)
  pub content_type : Option (List ℕ)
  pub body : List ℕ

pub data WireDecision : Type 0 where
  refused : WireRefusal → WireDecision
  accepted : Principal → CasRequest → WireDecision

-- The loop of `constantTimeEquals`: no early exit; a byte beyond an end reads as 0.
constant_time_loop : List ℕ → List ℕ → ℕ → ℕ
constant_time_loop [] [] acc = acc
constant_time_loop (x ∷ a) [] acc = constant_time_loop a [] (bit_or acc (bit_xor x 0))
constant_time_loop [] (y ∷ b) acc = constant_time_loop [] b (bit_or acc (bit_xor 0 y))
constant_time_loop (x ∷ a) (y ∷ b) acc = constant_time_loop a b (bit_or acc (bit_xor x y))

-- The code units of an ASCII literal.
abbrev pub code_units : String → List ℕ
code_units String.[] = []
code_units (String.◌∷◌ first rest) = code first ∷ code_units rest

-- `===` of a header that may be absent with a literal.
abbrev pub is_text : Option (List ℕ) → List ℕ → Bool
is_text none text = false
is_text (some header) text = text_eq header text

-- What follows a prefix, where the text starts with it.
unfoldable pub strip_prefix : List ℕ → List ℕ → Option (List ℕ)
strip_prefix [] text = some text
strip_prefix (p ∷ prefix) [] = none
strip_prefix (p ∷ prefix) (c ∷ text) =
    let rest = strip_prefix prefix text in if p == c then rest else none

abbrev pub octet_stream : List ℕ
octet_stream = code_units "application/octet-stream"

abbrev pub bearer_prefix : List ℕ
bearer_prefix = code_units "Bearer "

-- `resourcePath`: the prefix between slashes, and an identifier to the end.
resource_id : Option (List ℕ) → Option ContentId
resource_id none = none
resource_id (some id) = if is_content_id id then some id else none

unfoldable pub resource_path : List ℕ → List ℕ → Option ContentId
unfolding resource_id
resource_path prefix path = resource_id (strip_prefix (b'/' ∷ (prefix ++ b'/' ∷ [])) path)

abbrev refused_unless : Bool → WireRefusal → WireDecision → WireDecision
refused_unless true refusal decision = decision
refused_unless false refusal decision = refused refusal

-- The text encoder is the host's. `hex` is the hex codec of the documents.
module _ (utf8 : List ℕ → List ℕ) (hex : HexCodec) where
  pub constant_time_equals : List ℕ → List ℕ → Bool
  unfolding constant_time_loop
  constant_time_equals left right =
      let a : List ℕ = utf8 left in
      let b : List ℕ = utf8 right in constant_time_loop a b (bit_xor (length a) (length b)) == 0

  authenticate_bearer : Option (List ℕ) → Option (List ℕ) → Option Principal
  authenticate_bearer credential none = none
  authenticate_bearer none (some token) = none
  authenticate_bearer (some credential) (some token) =
      if constant_time_equals token credential then some bearer else none

  unfoldable pub authenticate : CasServerPolicy → Option (List ℕ) → Option Principal
  unfolding authenticate_bearer
  authenticate policy none = some anonymous
  authenticate policy (some authorization) =
      authenticate_bearer policy.credential (strip_prefix bearer_prefix authorization)

  is_read : OperationClass → Bool
  is_read read = true
  is_read write = false
  is_read publish = false

  is_bearer : Principal → Bool
  is_bearer bearer = true
  is_bearer anonymous = false

  unfoldable pub authorized : CasServerPolicy → Principal → OperationClass → Bool
  unfolding is_read is_bearer
  authorized policy principal operation = elim policy.credential [
    | none ↦ true
    | some credential ↦ is_bearer principal || (is_read operation && policy.anonymous_reads)
  ]

  refusal_of : Principal → WireRefusal
  refusal_of anonymous = unauthenticated
  refusal_of bearer = not_permitted

  accept : CasServerPolicy → Principal → CasRequest → WireDecision
  unfolding refusal_of authorized operation_class
  accept policy principal request =
      if authorized policy principal (operation_class request)
      then accepted principal request
      else refused (refusal_of principal)

  accept_keys :
      CasServerPolicy
      → Principal
      → (List ContentId → CasRequest)
      → Option (List ContentId)
      → WireDecision
  unfolding accept
  accept_keys policy principal request none = refused malformed_body
  accept_keys policy principal request (some keys) = accept policy principal (request keys)

  module _ (policy : CasServerPolicy) (facts : WireFacts) (principal : Principal) where
    decide_node : Option ContentId → WireDecision
    unfolding accept
    decide_node none = refused unknown_resource
    decide_node (some id) =
        if text_eq facts.method (code_units "GET")
        then accept policy principal (load_node id)
        else if text_eq facts.method (code_units "PUT")
        then (if not (is_text facts.content_type octet_stream)
            then refused wrong_media_type
            else accept policy principal (upload_node id facts.body))
        else refused method_not_allowed

    decide_root : Option ContentId → WireDecision
    unfolding accept accept_keys decide_node
    decide_root none = decide_node (resource_path (code_units "cas") facts.path)
    decide_root (some root) =
        if text_eq facts.method (code_units "GET")
        then accept policy principal (read_root root)
        else if not (text_eq facts.method (code_units "PUT"))
        then refused method_not_allowed
        else if not (is_text facts.content_type octet_stream)
        then refused wrong_media_type
        else accept_keys policy principal (publish_root root)
            (decode_key_list_document hex facts.body)

    decide_resource : WireDecision
    unfolding accept accept_keys decide_root
    decide_resource =
        if text_eq facts.path (code_units "/control/capabilities")
        then (if not (text_eq facts.method (code_units "GET"))
            then refused method_not_allowed
            else accept policy principal read_capabilities)
        else if text_eq facts.path (code_units "/control/missing")
        then (if not (text_eq facts.method (code_units "POST"))
            then refused method_not_allowed
            else if not (is_text facts.content_type octet_stream)
            then refused wrong_media_type
            else accept_keys policy principal query_presence
                (decode_key_list_document hex facts.body))
        else decide_root (resource_path (code_units "roots") facts.path)

  decide_principal : CasServerPolicy → WireFacts → Option Principal → WireDecision
  unfolding decide_resource
  decide_principal policy facts none = refused unauthenticated
  decide_principal policy facts (some principal) = decide_resource policy facts principal

  unfoldable pub decide : CasServerPolicy → WireFacts → WireDecision
  unfolding decide_principal authenticate
  decide policy facts =
      if not (is_text facts.profile (code_units "cas-http/0"))
      then refused missing_profile
      else decide_principal policy facts (authenticate policy facts.authorization)
