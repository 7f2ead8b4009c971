-- ===== src/Tests/PutRuns.antt =====
-- Putting a blob of a byte, from a source of two parts, and reading it back.
use foldlab.Base.{ℕ, ◌≡◌, refl, ok, true, inr, List, length, [], ◌∷◌, arith, text_eq, Eff}
use foldlab.Node.{ContentId, all_of, is_node_input}
use foldlab.Codec.{
  encode_cas_node, write_nat32, encode_refs, decode_cas_node, read_nat32, read_refs, bytes_equal,
}
use foldlab.Admission.{judge_admission}
use foldlab.Store.{admission_facts, verify_node_bytes}
use foldlab.Store.Memory.{World, empty_world, memory_put, memory_put_outcome}
use foldlab.Blob.{encode_blob_manifest_payload}
use foldlab.Blob.Graph.{BlobError, BlobGraphResult, admit_blob_leaf, leaf_payload}
use foldlab.Blob.Graph.Chunks.{memory_store}
use foldlab.Blob.Graph.Write.{finalize_blob_graph, materialize_blob_graph}
use foldlab.Blob.Graph.Put.{put}
use foldlab.Blob.Graph.Put.Back.{get-put}
use foldlab.Blob.Graph.Put.Rounds.{EndsIn, IsPutError, put-EndsIn}
use foldlab.Blob.Graph.Put.Shapes.{IsShaped, last-IsShaped}
use foldlab.Blob.Graph.Put.Materialized.{get-materialize_blob_graph}
use foldlab.Blob.Graph.Read.Rounds.{get-InRounds}
use foldlab.Base.{◌≢◌, err}
use foldlab.Blob.Graph.{out_of_rounds}
use foldlab.Blob.Graph.Read.{get, concat_parts}
use foldlab.Tests.Hex.{lower_hex}
use foldlab.Tests.Fixtures.{toy_address, toy_id}

abbrev put_byte : Eff World BlobError ContentId
put_byte = put (memory_store lower_hex toy_address true) ([] ∷ (7 ∷ []) ∷ [])

byte_put : put_byte empty_world ≡ (ok (toy_id (3 ∷ [])), (put_byte empty_world).1)
unfolding put finalize_blob_graph admit_blob_leaf memory_put memory_put_outcome is_node_input
    encode_cas_node write_nat32 encode_refs decode_cas_node read_nat32 read_refs judge_admission
    bytes_equal text_eq all_of admission_facts leaf_payload verify_node_bytes
    encode_blob_manifest_payload
byte_put = refl

get-put_example :
    get (memory_store lower_hex toy_address true) (toy_id (3 ∷ [])) (put_byte empty_world).1
    ≡ (ok (7 ∷ []), (put_byte empty_world).1)
unfolding concat_parts
get-put_example =
    get-put lower_hex toy_address true ([] ∷ (7 ∷ []) ∷ []) (toy_id (3 ∷ [])) empty_world
      (put_byte empty_world).1 byte_put (omega arith)

put-EndsIn_example :
    EndsIn IsPutError
      (put (memory_store lower_hex toy_address true) ([] ∷ (7 ∷ []) ∷ []) empty_world).0
put-EndsIn_example =
    put-EndsIn (memory_store lower_hex toy_address true) ([] ∷ (7 ∷ []) ∷ []) empty_world

get-InRounds_example :
    (get (memory_store lower_hex toy_address true) (toy_id (3 ∷ [])) (put_byte empty_world).1).0
    ≢ err out_of_rounds
get-InRounds_example =
    get-InRounds (memory_store lower_hex toy_address true) (toy_id (3 ∷ []))
      (put_byte empty_world).1

-- The same byte, written as a list of one chunk.
abbrev one_byte : List (List ℕ)
one_byte = (7 ∷ []) ∷ []

abbrev write_byte : Eff World BlobError BlobGraphResult
write_byte = materialize_blob_graph (memory_store lower_hex toy_address true) one_byte

abbrev byte_graph : BlobGraphResult
byte_graph = record {
  blob_ref = toy_id (3 ∷ []);
  tree_root = toy_id (1 ∷ []);
  total_bytes = 1;
  leaf_count = 1;
}

byte_written : write_byte empty_world ≡ (ok byte_graph, (write_byte empty_world).1)
unfolding materialize_blob_graph finalize_blob_graph admit_blob_leaf memory_put memory_put_outcome
    is_node_input encode_cas_node write_nat32 encode_refs decode_cas_node read_nat32 read_refs
    judge_admission bytes_equal text_eq all_of admission_facts leaf_payload verify_node_bytes
    encode_blob_manifest_payload
byte_written = refl

one_byte-IsShaped : IsShaped one_byte
one_byte-IsShaped = last-IsShaped [] (7 ∷ []) (λ i chunk e. cc) (omega arith) (inr refl)

get-materialize_blob_graph_example :
    (get (memory_store lower_hex toy_address true) byte_graph.blob_ref (write_byte empty_world).1
      ≡ (ok (concat_parts one_byte), (write_byte empty_world).1))
    × (byte_graph.total_bytes ≡ length (concat_parts one_byte))
    × (byte_graph.leaf_count ≡ length one_byte)
unfolding concat_parts
get-materialize_blob_graph_example =
    get-materialize_blob_graph lower_hex toy_address true one_byte byte_graph empty_world
      (write_byte empty_world).1 one_byte-IsShaped byte_written (omega arith)
