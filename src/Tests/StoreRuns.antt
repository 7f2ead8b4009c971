-- ===== src/Tests/StoreRuns.antt =====
-- The store on a chunk and a leaf that references it.
use foldlab.Base.{◌≡◌, refl, ap, ok, err, some, List, [], ◌∷◌, All, true, text_eq}
use foldlab.Node.{CasNodeInput, is_node_input, all_of, dangling_reference}
use foldlab.Codec.{
  encode_cas_node, decode_cas_node, cas_scheme_version, write_nat32, read_nat32, encode_refs,
  read_refs, bytes_equal,
}
use foldlab.Admission.{judge_admission}
use foldlab.Backend.{lookup}
use foldlab.Store.{fresh, duplicate, outcome_id, admission_facts, verify_node_bytes}
use foldlab.Store.Verify.{load_sound}
use foldlab.Store.Memory.{world_reader, memory_load, memory_put_outcome, empty_world}
use foldlab.Store.Memory.Laws.{load-put, put-put, put-keeps}
use foldlab.Store.Memory.Invariant.{IsClosed, IsClosed-empty, put-IsClosed}
use foldlab.Store.Memory.Runs.{run_puts, Followed, load-run_puts}
use foldlab.Store.Memory.Receipts.{Receipted, put-error, put-Receipted}
use foldlab.Tests.Hex.{lower_hex}
use foldlab.Tests.Fixtures.{
  toy_address, toy_id, chunk_node, leaf_node, chunk_id, one_chunk, chunk_put,
}

chunk_fresh :
    (memory_put_outcome lower_hex toy_address true chunk_node empty_world).0 ≡ ok (fresh chunk_id)
chunk_fresh = ap (λ p. p.0) chunk_put

load-put_example :
    memory_load lower_hex toy_address (outcome_id (fresh chunk_id)) one_chunk
    ≡ (ok chunk_node, one_chunk)
load-put_example =
    load-put lower_hex toy_address true chunk_node empty_world (fresh chunk_id) chunk_fresh

load_sound_example :
    (toy_address.digest (encode_cas_node lower_hex chunk_node) ≡ ok (outcome_id (fresh chunk_id)))
    × (chunk_node.kind.version ≡ cas_scheme_version)
unfolding memory_load
load_sound_example =
    load_sound lower_hex toy_address world_reader (outcome_id (fresh chunk_id)) one_chunk one_chunk
      chunk_node load-put_example

put-put_example :
    memory_put_outcome lower_hex toy_address true chunk_node one_chunk
    ≡ (ok (duplicate (outcome_id (fresh chunk_id))), one_chunk)
put-put_example =
    put-put lower_hex toy_address true chunk_node empty_world (fresh chunk_id) chunk_fresh

chunk_held :
    lookup chunk_id one_chunk.plane.nodes
    ≡ some (0 ∷ 8 ∷ 0 ∷ 0 ∷ 0 ∷ 2 ∷ 1 ∷ 2 ∷ 0 ∷ 0 ∷ 0 ∷ 0 ∷ [])
unfolding lookup text_eq
chunk_held = ap (λ p. lookup chunk_id p.1.plane.nodes) chunk_put

put-keeps_example :
    lookup chunk_id
      (memory_put_outcome lower_hex toy_address true (leaf_node chunk_id) one_chunk).1.plane.nodes
    ≡ some (0 ∷ 8 ∷ 0 ∷ 0 ∷ 0 ∷ 2 ∷ 1 ∷ 2 ∷ 0 ∷ 0 ∷ 0 ∷ 0 ∷ [])
put-keeps_example =
    put-keeps lower_hex toy_address true (leaf_node chunk_id) one_chunk chunk_id
      (0 ∷ 8 ∷ 0 ∷ 0 ∷ 0 ∷ 2 ∷ 1 ∷ 2 ∷ 0 ∷ 0 ∷ 0 ∷ 0 ∷ []) chunk_held

put-IsClosed_example : IsClosed lower_hex toy_address one_chunk
put-IsClosed_example =
    put-IsClosed lower_hex toy_address true chunk_node empty_world
      (IsClosed-empty lower_hex toy_address)

abbrev two_nodes : List CasNodeInput
two_nodes = chunk_node ∷ leaf_node chunk_id ∷ []

leaf_held :
    lookup (toy_id []) (run_puts lower_hex toy_address true two_nodes empty_world).plane.nodes
    ≡ some (encode_cas_node lower_hex (leaf_node chunk_id))
unfolding memory_put_outcome is_node_input encode_cas_node write_nat32 encode_refs decode_cas_node
    read_nat32 read_refs judge_admission bytes_equal text_eq all_of admission_facts
    verify_node_bytes lookup
leaf_held = refl

load-run_puts_example :
    (n : CasNodeInput) × (memory_load lower_hex toy_address
        (toy_id [])
        (run_puts lower_hex toy_address true two_nodes empty_world)
      ≡ (ok n, run_puts lower_hex toy_address true two_nodes empty_world))
    × (toy_address.digest (encode_cas_node lower_hex n) ≡ ok (toy_id []))
    × All
        (Followed lower_hex toy_address (run_puts lower_hex toy_address true two_nodes empty_world))
        n.refs
load-run_puts_example =
    load-run_puts lower_hex toy_address true two_nodes (toy_id [])
      (encode_cas_node lower_hex (leaf_node chunk_id)) leaf_held

-- A leaf over an empty store dangles.
leaf_dangles :
    (memory_put_outcome lower_hex toy_address true (leaf_node chunk_id) empty_world).0
    ≡ err (dangling_reference chunk_id)
unfolding memory_put_outcome is_node_input encode_cas_node write_nat32 encode_refs decode_cas_node
    read_nat32 read_refs judge_admission bytes_equal text_eq all_of admission_facts
leaf_dangles = refl

put-error_example :
    (memory_put_outcome lower_hex toy_address true (leaf_node chunk_id) empty_world).1 ≡ empty_world
put-error_example =
    put-error lower_hex toy_address true (leaf_node chunk_id) empty_world
      (dangling_reference chunk_id) leaf_dangles

put-Receipted_example : Receipted one_chunk.plane.nodes 0 one_chunk.log
put-Receipted_example = put-Receipted lower_hex toy_address true chunk_node empty_world tt
