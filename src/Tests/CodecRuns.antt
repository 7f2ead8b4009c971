-- ===== src/Tests/CodecRuns.antt =====
-- The codec and the judgment on small nodes.
use foldlab.Base.{ℕ, ◌≡◌, ◌↔◌, refl, none, some, List, [], ◌∷◌, arith}
use foldlab.Codec.{
  encode_cas_node, decode_cas_node, write_nat32, read_nat32, encode_refs, read_refs,
}
use foldlab.Codec.RoundTrip.{decode-encode_cas_node, encode-decode_cas_node}
use foldlab.Admission.{judge_refs, judge_admission, admit, already_resident, wrong_kind_reference}
use foldlab.Admission.Verdicts.{
  judge-admit_iff, judge-already_resident_iff, judge_refs-first, IsAdmissible,
}
use foldlab.Tests.Hex.{lower_hex}
use foldlab.Tests.Fixtures.{chunk_node, leaf_node, chunk_id, chunk_node-IsNode, no_facts}

abbrev chunk_bytes : List ℕ
chunk_bytes = 0 ∷ 8 ∷ 0 ∷ 0 ∷ 0 ∷ 2 ∷ 1 ∷ 2 ∷ 0 ∷ 0 ∷ 0 ∷ 0 ∷ []

chunk_encoded : encode_cas_node lower_hex chunk_node ≡ chunk_bytes
unfolding encode_cas_node write_nat32 encode_refs
chunk_encoded = refl

chunk_decoded : decode_cas_node lower_hex chunk_bytes ≡ some chunk_node
unfolding decode_cas_node read_nat32 read_refs
chunk_decoded = refl

decode-encode_cas_node_example :
    decode_cas_node lower_hex (encode_cas_node lower_hex chunk_node) ≡ some chunk_node
decode-encode_cas_node_example = decode-encode_cas_node lower_hex chunk_node chunk_node-IsNode

encode-decode_cas_node_example : encode_cas_node lower_hex chunk_node ≡ chunk_bytes
encode-decode_cas_node_example =
    encode-decode_cas_node lower_hex chunk_bytes chunk_node (omega arith) chunk_decoded

judge-admit_iff_example :
    (judge_admission lower_hex (encode_cas_node lower_hex chunk_node) no_facts ≡ admit chunk_node)
    ↔ (IsAdmissible lower_hex chunk_node chunk_node-IsNode no_facts × (no_facts.resident ≡ none))
judge-admit_iff_example = judge-admit_iff lower_hex chunk_node chunk_node-IsNode no_facts

judge-already_resident_iff_example :
    (judge_admission lower_hex (encode_cas_node lower_hex chunk_node) no_facts
      ≡ already_resident chunk_node)
    ↔ (IsAdmissible lower_hex chunk_node chunk_node-IsNode no_facts
        × (no_facts.resident ≡ some (encode_cas_node lower_hex chunk_node)))
judge-already_resident_iff_example =
    judge-already_resident_iff lower_hex chunk_node chunk_node-IsNode no_facts

judge_refs-first_example :
    judge_refs (leaf_node chunk_id).refs (some 9 ∷ []) ≡ some (wrong_kind_reference chunk_id 8 9)
judge_refs-first_example =
    judge_refs-first [] [] (record { id = chunk_id; expected_tag = 8 }) [] [] (some 9) refl tt
      (λ e. ground arith)
