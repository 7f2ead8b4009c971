-- ===== src/Tests/ServerRuns.antt =====
-- The server core on a chunk.
use foldlab.Base.{
  ◌≡◌, ◌↔◌, ◌≤◌, refl, ap, none, ok, [], ◌∷◌, arith, text_eq, inl, All, false, true, length,
}
use foldlab.Node.{IsByte, all_of, is_node_input}
use foldlab.Codec.{
  encode_cas_node, write_nat32, encode_refs, decode_cas_node, read_nat32, read_refs, bytes_equal,
}
use foldlab.Codec.Output.{encode_cas_node-IsByte}
use foldlab.Admission.{judge_admission}
use foldlab.Backend.{lookup, status_of, contains}
use foldlab.Store.{fresh, duplicate, admission_facts}
use foldlab.Store.Memory.{World, empty_world, memory_put_outcome, world_reader, world_roots}
use foldlab.Store.Memory.Invariant.{IsClosed, IsClosed-empty}
use foldlab.Server.Protocol.{
  CasServerPolicy, bearer, load_node, upload_node, publish_root, read_root, admitted,
  already_admitted, node_bytes, published, root_published,
}
use foldlab.Server.Core.{serve}
use foldlab.Server.Core.Agreement.{upload, upload-put}
use foldlab.Server.Core.Keeps.{memory_serve, load-upload}
use foldlab.Server.Core.Closure.{serve-IsClosed}
use foldlab.Server.Core.Roots.{Held, Rooted, after_publish, publish-served, serve-Rooted}
use foldlab.Tests.Hex.{lower_hex}
use foldlab.Tests.Fixtures.{toy_address, chunk_node, chunk_node-IsNode, chunk_id, chunk_bytes}

abbrev open_policy : CasServerPolicy
open_policy = record {
  max_batch_keys = 10;
  max_node_bytes = 100;
  credential = none;
  anonymous_reads = true;
}

chunk_enters : memory_put_outcome lower_hex toy_address false chunk_node empty_world ≡ (
  ok (fresh chunk_id),
  record empty_world { plane = record { nodes = (chunk_id, chunk_bytes) ∷ []; roots = [] } },
)
unfolding memory_put_outcome is_node_input encode_cas_node write_nat32 encode_refs decode_cas_node
    read_nat32 read_refs judge_admission bytes_equal text_eq all_of admission_facts
chunk_enters = refl

chunk_encoded : encode_cas_node lower_hex chunk_node ≡ chunk_bytes
unfolding encode_cas_node write_nat32 encode_refs
chunk_encoded = refl

chunk_small : length (encode_cas_node lower_hex chunk_node) ≤ open_policy.max_node_bytes
chunk_small = rw chunk_encoded (omega arith)

chunk_in_bytes : All IsByte (encode_cas_node lower_hex chunk_node)
chunk_in_bytes = encode_cas_node-IsByte lower_hex chunk_node chunk_node-IsNode

abbrev uploaded : World
uploaded = record empty_world {
  plane = record { nodes = (chunk_id, chunk_bytes) ∷ []; roots = [] };
}

upload-put_example :
    ((upload lower_hex toy_address open_policy bearer chunk_node empty_world chunk_id
        ≡ (admitted, uploaded))
      ↔ (memory_put_outcome lower_hex toy_address false chunk_node empty_world
          ≡ (ok (fresh chunk_id), uploaded)))
    × ((upload lower_hex toy_address open_policy bearer chunk_node empty_world chunk_id
          ≡ (already_admitted, uploaded))
        ↔ (memory_put_outcome lower_hex toy_address false chunk_node empty_world
            ≡ (ok (duplicate chunk_id), uploaded)))
upload-put_example =
    upload-put lower_hex toy_address open_policy bearer chunk_node empty_world chunk_id
      chunk_node-IsNode chunk_small uploaded

upload_admitted :
    memory_serve lower_hex toy_address open_policy bearer
      (upload_node chunk_id (encode_cas_node lower_hex chunk_node))
      empty_world
    ≡ (admitted, uploaded)
upload_admitted = upload-put_example.0.1 chunk_enters

load-upload_example :
    memory_serve lower_hex toy_address open_policy bearer
      (load_node chunk_id)
      (memory_serve lower_hex toy_address open_policy bearer
        (upload_node chunk_id (encode_cas_node lower_hex chunk_node))
        empty_world).1
    ≡ (
      node_bytes (encode_cas_node lower_hex chunk_node),
      (memory_serve lower_hex toy_address open_policy bearer
          (upload_node chunk_id (encode_cas_node lower_hex chunk_node))
          empty_world).1,
    )
load-upload_example =
    load-upload lower_hex toy_address open_policy bearer empty_world chunk_id
      (encode_cas_node lower_hex chunk_node) chunk_in_bytes (inl (ap (λ p. p.0) upload_admitted))

serve-IsClosed_example :
    IsClosed lower_hex toy_address
      (memory_serve lower_hex toy_address open_policy bearer
        (upload_node chunk_id (encode_cas_node lower_hex chunk_node))
        empty_world).1
serve-IsClosed_example =
    serve-IsClosed lower_hex toy_address open_policy bearer empty_world
      (IsClosed-empty lower_hex toy_address)
      (upload_node chunk_id (encode_cas_node lower_hex chunk_node)) chunk_in_bytes

root_published_run :
    (after_publish lower_hex toy_address open_policy bearer uploaded chunk_id (chunk_id ∷ [])).0
    ≡ published
unfolding serve world_reader world_roots lookup status_of contains text_eq
root_published_run = refl

publish-served_example :
    All (Held uploaded) (chunk_id ∷ chunk_id ∷ [])
    × (memory_serve lower_hex toy_address open_policy bearer
          (read_root chunk_id)
          (after_publish lower_hex toy_address open_policy bearer uploaded chunk_id
            (chunk_id ∷ [])).1
        ≡ (
          root_published,
          (after_publish lower_hex toy_address open_policy bearer uploaded chunk_id
              (chunk_id ∷ [])).1,
        ))
publish-served_example =
    publish-served lower_hex toy_address open_policy bearer uploaded chunk_id (chunk_id ∷ [])
      root_published_run

serve-Rooted_example :
    Rooted
      (memory_serve lower_hex toy_address open_policy bearer
        (publish_root chunk_id (chunk_id ∷ []))
        uploaded).1
serve-Rooted_example =
    serve-Rooted lower_hex toy_address open_policy bearer uploaded
      (publish_root chunk_id (chunk_id ∷ [])) tt tt
