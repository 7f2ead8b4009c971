-- ===== src/Graph/Resident.antt =====
-- The closure over the in-memory store: in a closed store it ends for every resident root.
use foldlab.Base.{
  ℕ, zero, suc, ◌+◌, ◌*◌, ◌<◌, ◌≤◌, ◌≡◌, inl, inr, refl, sym, ap, ◌∙◌, Bool, true, false, Option,
  none, some, List, [], ◌∷◌, map, max, length, get_elem?, All, ok, Result-cases, Option-cases,
  Bool-cases, text_eq, arith,
}
use foldlab.Node.{ContentId, HexCodec, CasReference, CasNodeInput}
use foldlab.Codec.{decode_cas_node}
use foldlab.Backend.{lookup, contains}
use foldlab.Store.{CasAddress, verify_node_bytes}
use foldlab.Store.Memory.{World, world_reader}
use foldlab.Store.Memory.Invariant.{IsClosed}
use foldlab.Graph.{closure_refs, closure, resident_bytes, resident_or, reference_ids}
use foldlab.Graph.Walks.{Reaches, here, onward}
use foldlab.Graph.Closure.{Refers, closure_refs-IsSteady}
use foldlab.Graph.Rounds.{Bounds, walk_with-Ends}

abbrev pub entry_ids : List (ContentId × List ℕ) → List ContentId
entry_ids nodes = map (λ (entry : ContentId × List ℕ). entry.0) nodes

verified_decodes :
    (hex : HexCodec) (address : CasAddress) (id : ContentId) (bytes : List ℕ) (n : CasNodeInput)
    → verify_node_bytes hex address id bytes ≡ ok n
    → decode_cas_node hex bytes ≡ some n
unfolding verify_node_bytes
verified_decodes hex address id bytes n h = elim (Option-cases (decode_cas_node hex bytes)) [
  | inl e ↦ absurd (ground arith)
  | inr (m, e) ↦ elim (Result-cases (address.digest bytes)) [
    | inl (a, d) ↦ ground arith
    | inr (x, d) ↦ absurd (ground arith)
  ]
]

lookup-entry_ids :
    (id : ContentId) (bytes : List ℕ) (nodes : List (ContentId × List ℕ))
    → lookup id nodes ≡ some bytes
    → contains id (entry_ids nodes) ≡ true
unfolding lookup contains
lookup-entry_ids id bytes [] h = cc
lookup-entry_ids id bytes ((k, b) ∷ nodes) h = ground (arith, lookup-entry_ids id bytes nodes)

picked :
    {P : CasReference → Type 0} (refs : List CasReference) (i : ℕ) (child : ContentId)
    → All P refs
    → get_elem? (map (λ (ref : CasReference). ref.id) refs) i ≡ some child
    → (ref : CasReference) × ((ref.id ≡ child) × P ref)
picked [] i child all h = cc
picked (ref ∷ refs) zero child all h = (ref, (cc, all.0))
picked (ref ∷ refs) (suc i) child all h = picked refs i child all.1 h

module _ (hex : HexCodec) where
  -- The references of a node, as `closure` reads them.
  refs_count : Option CasNodeInput → ℕ
  refs_count none = 0
  refs_count (some node) = length node.refs

  -- The most references of a resident node.
  unfoldable pub most_refs : List (ContentId × List ℕ) → ℕ
  unfolding refs_count
  most_refs [] = 0
  most_refs ((id, bytes) ∷ nodes) = max (refs_count (decode_cas_node hex bytes)) (most_refs nodes)

  most_refs-lookup :
      (id : ContentId) (bytes : List ℕ) (n : CasNodeInput) (nodes : List (ContentId × List ℕ))
      → lookup id nodes ≡ some bytes
      → decode_cas_node hex bytes ≡ some n
      → length n.refs ≤ most_refs nodes
  unfolding lookup most_refs refs_count
  most_refs-lookup id bytes n [] h d = cc
  most_refs-lookup id bytes n ((k, b) ∷ nodes) h d = elim (Bool-cases (text_eq k id)) [
    | inl e ↦
        let q : b ≡ bytes = ground arith in
        let d' : decode_cas_node hex b ≡ some n = rw q d in rw d' (omega arith)
    | inr e ↦ omega (arith, most_refs-lookup id bytes n nodes (ground arith) d)
  ]

  module _ (w : World) where
    world_pure : (id : ContentId) → (world_reader.load_bytes id w).1 ≡ w
    unfolding world_reader
    world_pure id = refl

    abbrev pub References : ContentId → List ContentId → Type 0
    References = Refers (closure_refs hex world_reader) w

    closure_refs-held :
        (id : ContentId) (is_root : Bool) (bytes : List ℕ) (n : CasNodeInput)
        → lookup id w.plane.nodes ≡ some bytes
        → decode_cas_node hex bytes ≡ some n
        → (closure_refs hex world_reader id is_root w).0
          ≡ ok (map (λ (ref : CasReference). ref.id) n.refs)
    unfolding closure_refs resident_bytes resident_or reference_ids world_reader
    closure_refs-held id is_root bytes n h d = rw (h, d) refl

    record Holds (id : ContentId) (refs : List ContentId) : Type 0 where
      bytes : List ℕ
      node : CasNodeInput
      held : lookup id w.plane.nodes ≡ some bytes
      decoded : decode_cas_node hex bytes ≡ some node
      listed : map (λ (ref : CasReference). ref.id) node.refs ≡ refs

    References-Holds : (id : ContentId) (refs : List ContentId) → References id refs → Holds id refs
    unfolding closure_refs resident_bytes resident_or reference_ids world_reader
    References-Holds id refs h = elim (Option-cases (lookup id w.plane.nodes)) [
      | inl e ↦ absurd (ground arith)
      | inr (bytes, e) ↦ elim (Option-cases (decode_cas_node hex bytes)) [
        | inl d ↦ absurd (ground arith)
        | inr (n, d) ↦ record {
          bytes = bytes;
          node = n;
          held = e;
          decoded = d;
          listed = ground arith;
        }
      ]
    ]

    References-Bounds : Bounds References (entry_ids w.plane.nodes) (most_refs w.plane.nodes)
    References-Bounds = record {
      held = λ x refs h.
          let k = References-Holds x refs h in lookup-entry_ids x k.bytes w.plane.nodes k.held;
      least = λ x refs h.
          let k = References-Holds x refs h in
          omega (
            arith,
            most_refs-lookup x k.bytes k.node w.plane.nodes k.held k.decoded,
            length-map k.node.refs,
            ap length k.listed,
          );
    }
      where
        length-map :
            (refs : List CasReference)
            → length (map (λ (ref : CasReference). ref.id) refs) ≡ length refs
        length-map [] = refl
        length-map (ref ∷ refs) = omega (arith, length-map refs)

    module _ (address : CasAddress) (closed : IsClosed hex address w) where
      reached_resident :
          (root : ContentId) (bytes : List ℕ)
          → lookup root w.plane.nodes ≡ some bytes
          → (x : ContentId) → Reaches References root x
          → (b : List ℕ) × (lookup x w.plane.nodes ≡ some b)
      reached_resident root bytes h _ here = (bytes, h)
      reached_resident root bytes h _ (onward {x = x} refs i child r k e) =
          let (b, held) = reached_resident root bytes h x r in
          let entry = closed.entry x b held in
          let d = verified_decodes hex address x b entry.node entry.verified in
          let q : map (λ (ref : CasReference). ref.id) entry.node.refs ≡ refs =
            cc (closure_refs-held x false b entry.node held d) in
          let e' : get_elem? (map (λ (ref : CasReference). ref.id) entry.node.refs) i ≡ some child =
            rw q e in
          let (ref, (same, resident)) = picked entry.node.refs i child entry.resolved e' in
          (resident.bytes, ap (λ k. lookup k w.plane.nodes) (sym same) ∙ resident.held)

      -- In a closed store the closure of a resident root is answered, and the store is as before, in every
      -- number of rounds above a bound that the entries of the store and the references of one of them set.
      pub closure-resident :
          (root : ContentId) (bytes : List ℕ) (rounds : ℕ)
          → lookup root w.plane.nodes ≡ some bytes
          → (2 * most_refs w.plane.nodes + 1) * (length (entry_ids w.plane.nodes) + 1) < rounds
          → (ids : List ContentId) × (closure hex world_reader rounds root w ≡ (ok (some ids), w))
      unfolding closure
      closure-resident root bytes rounds h enough =
          elim (walk_with-Ends (closure_refs hex world_reader) w
            (closure_refs-IsSteady hex world_reader w world_pure) (entry_ids w.plane.nodes)
            (most_refs w.plane.nodes) References-Bounds root rounds enough) [
              | inl (ids, e) ↦ (ids, e)
              | inr (x, (e, (id, (is_root, (r, f))))) ↦
                  let (b, held) = reached_resident root bytes h id r in
                  let entry = closed.entry id b held in
                  let d = verified_decodes hex address id b entry.node entry.verified in
                  absurd (cc (closure_refs-held id is_root b entry.node held d))
            ]
