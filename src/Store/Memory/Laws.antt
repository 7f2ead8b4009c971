-- ===== src/Store/Memory/Laws.antt =====
-- The laws of put and load over the in-memory backend.
use foldlab.Base.{
  ℕ, ◌≡◌, ap, ok, Result, none, some, List, All, arith, Bool, text_eq, text_eq_iff, text_eq_refl,
  if◌then◌else◌,
}
use mathlib.Core.Path.{subst}
use foldlab.Node.{ContentId, HexCodec, CasReference, CasNodeInput, CasError}
use foldlab.Node.Checks.{All-map}
use foldlab.Codec.{encode_cas_node}
use foldlab.Backend.{lookup}
use foldlab.Backend.Memory.{lookup-append}
use foldlab.Store.{CasAddress, fresh, duplicate, PutOutcome, outcome_id, verify_node_bytes}
use foldlab.Store.Verify.{verify_node_bytes_complete}
use foldlab.Store.Memory.{World, memory_load, memory_put_outcome}
use foldlab.Store.Memory.Steps.{
  IsResident, IsPutAt, PutStep, admitted, joined, refused, written, put_step,
}
use foldlab.Store.Memory.Complete.{put-joins}

module _ (hex : HexCodec) (address : CasAddress) where
  pub load_held :
      (id : ContentId) (w : World) (bytes : List ℕ) (n : CasNodeInput)
      → lookup id w.plane.nodes ≡ some bytes
      → verify_node_bytes hex address id bytes ≡ ok n
      → memory_load hex address id w ≡ (ok n, w)
  unfolding memory_load
  load_held id w bytes n h v = ground arith

  module _ (worded : Bool) (n : CasNodeInput) (w : World) where
    abbrev pub after : World
    after = (memory_put_outcome hex address worded n w).1

    pub lookup-written :
        (id k : ContentId)
        → lookup id w.plane.nodes ≡ none
        → lookup k (written hex address worded n w id).plane.nodes
          ≡ (if text_eq id k then some (encode_cas_node hex n) else lookup k w.plane.nodes)
    lookup-written id k h = lookup-append id k (encode_cas_node hex n) w.plane.nodes h

    keeps_step :
        (k : ContentId) (b : List ℕ)
        → lookup k w.plane.nodes ≡ some b
        → {p : Result CasError PutOutcome × World} → PutStep hex address worded n w p
        → lookup k p.1.plane.nodes ≡ some b
    keeps_step k b h (admitted id at absent e) =
        rw e (ground (arith, lookup-written id k absent, text_eq_iff id k))
    keeps_step k b h (joined id at held e) = rw e h
    keeps_step k b h (refused x e) = rw e h

    -- A put, whatever it answers, keeps every resident entry.
    pub put-keeps :
        (k : ContentId) (b : List ℕ)
        → lookup k w.plane.nodes ≡ some b
        → lookup k after.plane.nodes ≡ some b
    put-keeps k b h = keeps_step k b h (put_step hex address worded n w)

    pub IsResident-keeps :
        (refs : List CasReference)
        → All (IsResident hex address w) refs
        → All (IsResident hex address after) refs
    IsResident-keeps = All-map λ ref r. record {
      bytes = r.bytes;
      node = r.node;
      held = put-keeps ref.id r.bytes r.held;
      verified = r.verified;
      typed = r.typed;
    }

    -- What a successful put leaves: the node is in order, and resident at the answer.
    answer : (o o' : PutOutcome) {r : Result CasError PutOutcome} → r ≡ ok o → r ≡ ok o' → o' ≡ o
    answer o o' h k = cc

    held_step :
        (o : PutOutcome) {p : Result CasError PutOutcome × World}
        → p.0 ≡ ok o
        → PutStep hex address worded n w p
        → IsPutAt hex address worded n w (outcome_id o)
          × (lookup (outcome_id o) p.1.plane.nodes ≡ some (encode_cas_node hex n))
    unfolding outcome_id
    held_step o {p} h (admitted id at absent e) =
        let i : id ≡ outcome_id o = ap outcome_id (answer o (fresh id) h (ap (λ q. q.0) e)) in
        subst
          (λ k.
            IsPutAt hex address worded n w k
            × (lookup k p.1.plane.nodes ≡ some (encode_cas_node hex n)))
          i (at, rw e (ground (arith, lookup-written id id absent, text_eq_refl id)))
    held_step o {p} h (joined id at held e) =
        let i : id ≡ outcome_id o = ap outcome_id (answer o (duplicate id) h (ap (λ q. q.0) e)) in
        subst
          (λ k.
            IsPutAt hex address worded n w k
            × (lookup k p.1.plane.nodes ≡ some (encode_cas_node hex n)))
          i (at, rw e held)
    held_step o {p} h (refused x e) = cc (ap (λ q. q.0) e)

    -- After a put that answers an outcome, a load at the address of the outcome gives the node back,
    -- and the load changes nothing.
    pub load-put :
        (o : PutOutcome)
        → (memory_put_outcome hex address worded n w).0 ≡ ok o
        → memory_load hex address (outcome_id o) after ≡ (ok n, after)
    load-put o h =
        let (at, held) = held_step o h (put_step hex address worded n w) in
        load_held (outcome_id o) after (encode_cas_node hex n) n held
          (verify_node_bytes_complete hex address (outcome_id o) n at.valid at.known at.addressed)

    -- After a put that answers an outcome, a second put of the same node answers the same address, as
    -- a duplicate, and changes nothing.
    pub put-put :
        (o : PutOutcome)
        → (memory_put_outcome hex address worded n w).0 ≡ ok o
        → memory_put_outcome hex address worded n after ≡ (ok (duplicate (outcome_id o)), after)
    put-put o h =
        let (at, held) = held_step o h (put_step hex address worded n w) in
        put-joins hex address worded n after (outcome_id o)
          (record {
            valid = at.valid;
            known = at.known;
            addressed = at.addressed;
            resolved = IsResident-keeps n.refs at.resolved;
          })
          held
