-- ===== src/Server/Protocol/Render.antt =====
-- library/effects/src/server/Protocol.ts: the status table.
use foldlab.Base.{ℕ, Option, none, some, List}
use foldlab.Wire.{encode_capability_document, encode_presence_document}
use foldlab.Server.Protocol.{
  WireRefusal, malformed_body, method_not_allowed, missing_profile, not_permitted, unauthenticated,
  unknown_resource, wrong_media_type, CasOutcome, admission_refused, admitted, already_admitted,
  backend_unavailable, batch_budget_exceeded, capabilities, closure_unverified, digest_mismatch,
  node_absent, node_budget_exceeded, node_bytes, presence, published, root_absent, root_published,
}

-- A response: its status, and the body where it is an octet stream.
pub record Response : Type 0 where
  pub status : ℕ
  pub body : Option (List ℕ)

abbrev status_only : ℕ → Response
status_only code = record { status = code; body = none }

pub render_refusal : WireRefusal → Response
render_refusal malformed_body = status_only 400
render_refusal method_not_allowed = status_only 405
render_refusal missing_profile = status_only 400
render_refusal not_permitted = status_only 403
render_refusal unauthenticated = status_only 401
render_refusal unknown_resource = status_only 400
render_refusal wrong_media_type = status_only 400

abbrev bytes_response : List ℕ → Response
bytes_response bytes = record { status = 200; body = some bytes }

pub render_outcome : CasOutcome → Response
render_outcome (admission_refused verdict) = status_only 409
render_outcome admitted = status_only 201
render_outcome already_admitted = status_only 200
render_outcome backend_unavailable = status_only 503
render_outcome batch_budget_exceeded = status_only 413
render_outcome (capabilities keys bytes) =
    bytes_response
      (encode_capability_document (record { max_batch_keys = keys; max_blob_bytes = bytes }))
render_outcome closure_unverified = status_only 409
render_outcome digest_mismatch = status_only 409
render_outcome node_absent = status_only 404
render_outcome node_budget_exceeded = status_only 413
render_outcome (node_bytes bytes) = bytes_response bytes
render_outcome (presence statuses) = bytes_response (encode_presence_document statuses)
render_outcome published = status_only 204
render_outcome root_absent = status_only 404
render_outcome root_published = status_only 204
