-- ===== src/Tests/Fixtures.antt =====
-- Small data for the runs: an address function, two nodes, and a store that holds the first.
use foldlab.Base.{
  ℕ, zero, suc, ◌+◌, ◌%◌, ◌≡◌, refl, Result, ok, List, [], ◌∷◌, All, length, true, arith,
}
use mathlib.Core.Path.{subst}
use foldlab.Node.{ContentId, IsHexDigit, IsContentId, FailureReason, CasNodeInput}
use foldlab.Node.Checks.{IsNode}
use foldlab.Base.{none, text_eq}
use foldlab.Node.{is_node_input, all_of}
use foldlab.Codec.{
  write_nat32, read_nat32, bytes_equal, encode_refs, encode_cas_node, read_refs, decode_cas_node,
}
use foldlab.Admission.{AdmissionFacts, judge_admission}
use foldlab.Store.{CasAddress, fresh, admission_facts}
use foldlab.Store.Memory.{World, empty_world, memory_put_outcome}
use foldlab.Tests.Hex.{lower_hex}

abbrev repeat : ℕ → ℕ → List ℕ
repeat zero c = []
repeat (suc n) c = c ∷ repeat n c

abbrev total : List ℕ → ℕ
total [] = 0
total (b ∷ bs) = b + total bs

-- A toy address: a decimal digit of the sum, 64 times.
abbrev pub toy_id : List ℕ → ContentId
toy_id bs = repeat 64 (48 + total bs % 10)

repeat-digits : (n c : ℕ) → IsHexDigit c → All IsHexDigit (repeat n c)
repeat-digits zero c h = tt
repeat-digits (suc n) c h = (h, repeat-digits n c h)

length-repeat : (n c : ℕ) → length (repeat n c) ≡ n
length-repeat zero c = refl
length-repeat (suc n) c = omega (arith, length-repeat n c)

pub toy_id-IsContentId : (bs : List ℕ) → IsContentId (toy_id bs)
toy_id-IsContentId bs = record {
  size = length-repeat 64 (48 + total bs % 10);
  digits = repeat-digits 64 (48 + total bs % 10) (omega arith);
}

pub toy_digest-IsContentId :
    (bs : List ℕ) (id : ContentId)
    → ◌≡◌ {A = Result FailureReason ContentId} (ok (toy_id bs)) (ok id)
    → IsContentId id
toy_digest-IsContentId bs id e = subst IsContentId (cc) (toy_id-IsContentId bs)

abbrev pub toy_address : CasAddress
toy_address = record { digest = λ bs. ok (toy_id bs); digest-IsContentId = toy_digest-IsContentId }

abbrev pub chunk_node : CasNodeInput
chunk_node = record { kind = record { version = 0; tag = 8 }; payload = 1 ∷ 2 ∷ []; refs = [] }

abbrev pub leaf_node : ContentId → CasNodeInput
leaf_node id = record {
  kind = record { version = 0; tag = 9 };
  payload = [];
  refs = record { id = id; expected_tag = 8 } ∷ [];
}

pub chunk_node-IsNode : IsNode chunk_node
chunk_node-IsNode = omega arith

abbrev pub chunk_id : ContentId
chunk_id = toy_id (0 ∷ 8 ∷ 0 ∷ 0 ∷ 0 ∷ 2 ∷ 1 ∷ 2 ∷ 0 ∷ 0 ∷ 0 ∷ 0 ∷ [])

abbrev pub chunk_bytes : List ℕ
chunk_bytes = 0 ∷ 8 ∷ 0 ∷ 0 ∷ 0 ∷ 2 ∷ 1 ∷ 2 ∷ 0 ∷ 0 ∷ 0 ∷ 0 ∷ []

pub chunk_id-IsContentId : IsContentId chunk_id
chunk_id-IsContentId = toy_id-IsContentId (0 ∷ 8 ∷ 0 ∷ 0 ∷ 0 ∷ 2 ∷ 1 ∷ 2 ∷ 0 ∷ 0 ∷ 0 ∷ 0 ∷ [])

abbrev pub no_facts : AdmissionFacts
no_facts = record { ref_tags = []; resident = none }

-- The store with the log, after the chunk.
abbrev pub one_chunk : World
one_chunk = (memory_put_outcome lower_hex toy_address true chunk_node empty_world).1

-- Naming the result of the run once keeps the other runs short.
pub chunk_put : memory_put_outcome lower_hex toy_address true chunk_node empty_world ≡ (
  ok (fresh chunk_id),
  record {
    plane = record {
      nodes = (chunk_id, 0 ∷ 8 ∷ 0 ∷ 0 ∷ 0 ∷ 2 ∷ 1 ∷ 2 ∷ 0 ∷ 0 ∷ 0 ∷ 0 ∷ []) ∷ [];
      roots = [];
    };
    log = record { address = chunk_id; at = 0; seq = 0; size = 2; tag = 8 } ∷ [];
    now = 0;
  },
)
unfolding memory_put_outcome is_node_input encode_cas_node write_nat32 encode_refs decode_cas_node
    read_nat32 read_refs judge_admission bytes_equal text_eq all_of admission_facts
chunk_put = refl
