-- ===== src/Tests/GraphRuns.antt =====
-- The closure and the audit of a leaf and its chunk.
use foldlab.Base.{
  ℕ, zero, suc, ◌+◌, ◌<◌, ◌*◌, ◌≡◌, ◌↔◌, inl, inr, refl, sym, ap, ◌∙◌, Result, true, if◌then◌else◌,
  text_eq_iff, false, ok, some, List, [], ◌∷◌, arith, text_eq, Bool-cases, get_elem?, length,
}
use mathlib.Core.Path.{subst}
use foldlab.Node.{ContentId, CasError}
use foldlab.Codec.{
  encode_cas_node, write_nat32, encode_refs, decode_cas_node, read_nat32, read_refs, bytes_equal,
}
use foldlab.Backend.{contains, lookup}
use foldlab.Store.{verify_node_bytes, PutOutcome}
use foldlab.Store.Memory.{World, world_reader, empty_world}
use foldlab.Store.Memory.Invariant.{IsClosed-empty, put-IsClosed}
use foldlab.Graph.{closure, closure_refs, walk_with}
use foldlab.Graph.Sets.{distinct}
use foldlab.Graph.Walks.{Reaches, here}
use foldlab.Graph.Closure.{Refers, closure-Reaches}
use foldlab.Graph.Order.{ChildrenFirst, Acyclic, closure-ChildrenFirst}
use foldlab.Graph.Resident.{closure-resident, most_refs, entry_ids}
use foldlab.Graph.Audit.{verify_with, Edge}
use foldlab.Graph.Audit.Checked.{IsFaithful}
use foldlab.Graph.Audit.Faithful.{verify_with-IsFaithful}
use foldlab.Tests.Hex.{lower_hex}
use foldlab.Tests.Fixtures.{
  toy_address, toy_id, chunk_id, chunk_bytes, chunk_node, leaf_node, one_chunk, chunk_put,
}

abbrev leaf_bytes : List ℕ
leaf_bytes = encode_cas_node lower_hex (leaf_node chunk_id)

abbrev leaf_id : ContentId
leaf_id = toy_id []

abbrev two_nodes : World
two_nodes = record {
  plane = record { nodes = (chunk_id, chunk_bytes) ∷ (leaf_id, leaf_bytes) ∷ []; roots = [] };
  log = [];
  now = 0;
}

two_pure : (id : ContentId) → (world_reader.load_bytes id two_nodes).1 ≡ two_nodes
unfolding world_reader
two_pure id = refl

two_closure :
    closure lower_hex world_reader 10 leaf_id two_nodes
    ≡ (ok (some (chunk_id ∷ leaf_id ∷ [])), two_nodes)
unfolding closure walk_with closure_refs world_reader lookup contains text_eq encode_cas_node
    write_nat32 encode_refs decode_cas_node read_nat32 read_refs
two_closure = refl

closure-Reaches_example :
    ((x : ContentId)
      → (contains x (chunk_id ∷ leaf_id ∷ []) ≡ true)
        ↔ Reaches (Refers (closure_refs lower_hex world_reader) two_nodes) leaf_id x)
    × (distinct (chunk_id ∷ leaf_id ∷ []) ≡ true)
closure-Reaches_example =
    closure-Reaches lower_hex world_reader two_nodes two_pure leaf_id 10 (chunk_id ∷ leaf_id ∷ [])
      two_nodes two_closure

-- The leaf is above all else.
abbrev rank : ContentId → ℕ
rank id = if text_eq id leaf_id then 1 else 0

leaf_refs :
    closure_refs lower_hex world_reader leaf_id false two_nodes ≡ (ok (chunk_id ∷ []), two_nodes)
unfolding closure_refs world_reader lookup text_eq encode_cas_node write_nat32 encode_refs
    decode_cas_node read_nat32 read_refs
leaf_refs = refl

chunk_refs : closure_refs lower_hex world_reader chunk_id false two_nodes ≡ (ok [], two_nodes)
unfolding closure_refs world_reader lookup text_eq decode_cas_node read_nat32 read_refs
chunk_refs = refl

absent_refs :
    (x : ContentId) (refs : List ContentId)
    → text_eq chunk_id x ≡ false
    → text_eq leaf_id x ≡ false
    → Refers (closure_refs lower_hex world_reader) two_nodes x refs
    → ⊥
unfolding closure_refs world_reader lookup
absent_refs x refs e f h = ground arith

abbrev References : ContentId → List ContentId → Type 0
References = Refers (closure_refs lower_hex world_reader) two_nodes

chunk_case :
    (refs : List ContentId) (i : ℕ) (child : ContentId)
    → References chunk_id refs
    → get_elem? refs i ≡ some child
    → rank child < rank chunk_id
chunk_case [] i child h k = absurd (cc k)
chunk_case (ref ∷ refs) i child h k = absurd (ground (arith, chunk_refs))

leaf_order : rank chunk_id < rank leaf_id
unfolding text_eq
leaf_order = omega arith

leaf_case :
    (refs : List ContentId) (i : ℕ) (child : ContentId)
    → References leaf_id refs
    → get_elem? refs i ≡ some child
    → rank child < rank leaf_id
leaf_case [] i child h k = absurd (cc k)
leaf_case (ref ∷ []) zero child h k =
    let q : chunk_id ≡ child = ground (arith, leaf_refs) in
    subst (λ y. rank y < rank leaf_id) q leaf_order
leaf_case (ref ∷ []) (suc i) child h k = absurd (cc k)
leaf_case (ref ∷ other ∷ refs) i child h k = absurd (ground (arith, leaf_refs))

two_Acyclic : Acyclic References rank
two_Acyclic x refs i child h k = elim (Bool-cases (text_eq chunk_id x)) [
  | inl e ↦
      let q = (text_eq_iff chunk_id x).0 e in
      subst (λ y. rank child < rank y) q
        (chunk_case refs i child (subst (λ y. References y refs) (sym q) h) k)
  | inr e ↦ elim (Bool-cases (text_eq leaf_id x)) [
    | inl f ↦
        let q = (text_eq_iff leaf_id x).0 f in
        subst (λ y. rank child < rank y) q
          (leaf_case refs i child (subst (λ y. References y refs) (sym q) h) k)
    | inr f ↦ absurd (absent_refs x refs e f h)
  ]
]

closure-ChildrenFirst_example :
    ChildrenFirst (Refers (closure_refs lower_hex world_reader) two_nodes) (chunk_id ∷ leaf_id ∷ [])
closure-ChildrenFirst_example =
    closure-ChildrenFirst lower_hex world_reader two_nodes two_pure rank two_Acyclic leaf_id 10
      (chunk_id ∷ leaf_id ∷ []) two_nodes two_closure

chunk_resident : lookup chunk_id one_chunk.plane.nodes ≡ some chunk_bytes
unfolding lookup text_eq
chunk_resident = ap (λ p. lookup chunk_id p.1.plane.nodes) chunk_put ∙ found
  where
    found : lookup chunk_id ((chunk_id, chunk_bytes) ∷ []) ≡ some chunk_bytes
    found = refl

chunk_most : most_refs lower_hex ((chunk_id, chunk_bytes) ∷ []) ≡ 0
unfolding most_refs decode_cas_node read_nat32 read_refs
chunk_most = refl

chunk_rounds :
    (2 * most_refs lower_hex one_chunk.plane.nodes + 1)
      * (length (entry_ids one_chunk.plane.nodes) + 1)
    < 5
chunk_rounds =
    subst
      (λ (p : Result CasError PutOutcome × World).
        (2 * most_refs lower_hex p.1.plane.nodes + 1) * (length (entry_ids p.1.plane.nodes) + 1)
        < 5)
      (sym chunk_put) small
  where
    small :
        (2 * most_refs lower_hex ((chunk_id, chunk_bytes) ∷ []) + 1)
          * (length (entry_ids ((chunk_id, chunk_bytes) ∷ [])) + 1)
        < 5
    small = rw chunk_most (omega arith)

closure-resident_example :
    (ids : List ContentId) × (closure lower_hex world_reader 5 chunk_id one_chunk
      ≡ (ok (some ids), one_chunk))
closure-resident_example =
    closure-resident lower_hex one_chunk toy_address
      (put-IsClosed lower_hex toy_address true chunk_node empty_world
        (IsClosed-empty lower_hex toy_address))
      chunk_id chunk_bytes 5 chunk_resident chunk_rounds

abbrev any_order : List Edge → ContentId → List ContentId
any_order edges id = id ∷ []

two_verified :
    verify_with lower_hex toy_address world_reader any_order 10 leaf_id two_nodes
    ≡ (ok (some (leaf_id ∷ [])), two_nodes)
unfolding verify_with verify_node_bytes bytes_equal world_reader lookup contains text_eq
    encode_cas_node write_nat32 encode_refs decode_cas_node read_nat32 read_refs
two_verified = refl

verify_with-IsFaithful_example : IsFaithful lower_hex toy_address world_reader two_nodes leaf_id
verify_with-IsFaithful_example =
    verify_with-IsFaithful lower_hex toy_address world_reader two_nodes two_pure leaf_id any_order
      10 (leaf_id ∷ []) two_nodes two_verified leaf_id here
