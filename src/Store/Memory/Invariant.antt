-- ===== src/Store/Memory/Invariant.antt =====
-- The closure of the in-memory store: every resident entry is a node at its own address whose
-- references resolve, at the kinds that they declare.
use foldlab.Base.{
  ℕ, ◌≡◌, refl, sym, ap, ◌∙◌, ok, Result, some, List, All, arith, Bool, text_eq, text_eq_iff,
  Bool-cases, inl, inr,
}
use mathlib.Core.Path.{subst, subst₂}
use foldlab.Node.{ContentId, HexCodec, CasReference, CasNodeInput, CasError}
use foldlab.Node.Checks.{All-map}
use foldlab.Codec.{encode_cas_node}
use foldlab.Backend.{lookup}
use foldlab.Backend.Memory.{lookup-empty}
use foldlab.Store.{CasAddress, PutOutcome, verify_node_bytes}
use foldlab.Store.Verify.{verify_node_bytes_complete}
use foldlab.Store.Memory.{World, memory_load, memory_put_outcome, empty_world}
use foldlab.Store.Memory.Steps.{IsResident, PutStep, admitted, joined, refused, written, put_step}
use foldlab.Store.Memory.Laws.{after, load_held, lookup-written, IsResident-keeps}

module _ (hex : HexCodec) (address : CasAddress) where
  pub record Entry (w : World) (id : ContentId) (bytes : List ℕ) : Type 0 where
    pub node : CasNodeInput
    pub verified : verify_node_bytes hex address id bytes ≡ ok node
    pub resolved : All (IsResident hex address w) node.refs

  pub record IsClosed (w : World) : Type 0 where
    pub entry :
        (id : ContentId) (bytes : List ℕ) → lookup id w.plane.nodes ≡ some bytes → Entry w id bytes

  pub IsClosed-empty : IsClosed empty_world
  IsClosed-empty = record { entry = λ id bytes h. cc (lookup-empty id) }

  module _ (worded : Bool) (n : CasNodeInput) (w : World) where
    Entry-keeps :
        (id : ContentId) (bytes : List ℕ)
        → Entry w id bytes
        → Entry (after hex address worded n w) id bytes
    Entry-keeps id bytes e = record {
      node = e.node;
      verified = e.verified;
      resolved = IsResident-keeps hex address worded n w e.node.refs e.resolved;
    }

    IsClosed-step :
        (c : IsClosed w) {p : Result CasError PutOutcome × World}
        → memory_put_outcome hex address worded n w ≡ p
        → PutStep hex address worded n w p
        → IsClosed p.1
    IsClosed-step c {p} q (admitted id at absent e) =
        subst (λ (t : Result CasError PutOutcome × World). IsClosed t.1) q
          (record {
            entry = λ k bytes h.
                grown k bytes (ap (λ (u : World). lookup k u.plane.nodes) (sym moved) ∙ h);
          })
      where
        moved : after hex address worded n w ≡ written hex address worded n w id
        moved = ap (λ (t : Result CasError PutOutcome × World). t.1) (q ∙ e)

        own :
            (k : ContentId) (bytes : List ℕ)
            → id ≡ k
            → encode_cas_node hex n ≡ bytes
            → Entry (after hex address worded n w) k bytes
        own k bytes i b = record {
          node = n;
          verified =
              subst₂ (λ a d. verify_node_bytes hex address a d ≡ ok n) i b
                (verify_node_bytes_complete hex address id n at.valid at.known at.addressed);
          resolved = IsResident-keeps hex address worded n w n.refs at.resolved;
        }

        grown :
            (k : ContentId) (bytes : List ℕ)
            → lookup k (written hex address worded n w id).plane.nodes ≡ some bytes
            → Entry (after hex address worded n w) k bytes
        grown k bytes h = elim (Bool-cases (text_eq id k)) [
          | inl s ↦
              own k bytes ((text_eq_iff id k).0 s)
                (ground (arith, lookup-written hex address worded n w id k absent))
          | inr s ↦
              Entry-keeps k bytes (
                c.entry k bytes (ground (arith, lookup-written hex address worded n w id k absent)))
        ]
    IsClosed-step c q (joined id at held e) = rw e c
    IsClosed-step c q (refused x e) = rw e c

    -- A put, whatever it answers, keeps the store closed.
    pub put-IsClosed : IsClosed w → IsClosed (memory_put_outcome hex address worded n w).1
    put-IsClosed c = IsClosed-step c refl (put_step hex address worded n w)

  -- In a closed store a load of a resident address answers a node, and so does a load of each of
  -- its references, at the declared kind.
  pub load-closed :
      (w : World) (id : ContentId) (bytes : List ℕ)
      → IsClosed w
      → lookup id w.plane.nodes ≡ some bytes
      → (n : CasNodeInput) × (memory_load hex address id w ≡ (ok n, w))
        × All
            (λ (ref : CasReference).
              (m : CasNodeInput) × (memory_load hex address ref.id w ≡ (ok m, w))
              × (m.kind.tag ≡ ref.expected_tag))
            n.refs
  load-closed w id bytes c h =
      let e = c.entry id bytes h in
      (
        e.node,
        load_held hex address id w bytes e.node h e.verified,
        All-map
            (λ ref r.
              (r.node, load_held hex address ref.id w r.bytes r.node r.held r.verified, r.typed))
            e.node.refs e.resolved,
      )
