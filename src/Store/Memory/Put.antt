-- ===== src/Store/Memory/Put.antt =====
-- The address projection of a put, and loads after it.
use foldlab.Base.{◌≡◌, ok, some, Bool, Result-cases, Option-cases, inl, inr, arith}
use mathlib.Core.Path.{subst}
use foldlab.Node.{ContentId, HexCodec, CasNodeInput}
use foldlab.Backend.{lookup}
use foldlab.Store.{CasAddress, put, load, load_resident, verify_node_bytes}
use foldlab.Store.Memory.{World, world_reader, memory_load, memory_put, memory_put_outcome}
use foldlab.Store.Memory.Laws.{load-put, load_held, put-keeps}

module _ (hex : HexCodec) (address : CasAddress) (worded : Bool) where
  -- What a put stored, a load at its answer gives back.
  pub load-memory_put :
      (n : CasNodeInput) (id : ContentId) (w v : World)
      → memory_put hex address worded n w ≡ (ok id, v)
      → memory_load hex address id v ≡ (ok n, v)
  unfolding memory_put put
  load-memory_put n id w v h = elim (Result-cases (memory_put_outcome hex address worded n w).0) [
    | inl (o, e) ↦ ground (arith, load-put hex address worded n w o e)
    | inr (x, e) ↦ absurd (ground arith)
  ]

  put_state :
      (m : CasNodeInput) (k : ContentId) (w v : World)
      → memory_put hex address worded m w ≡ (ok k, v)
      → (memory_put_outcome hex address worded m w).1 ≡ v
  unfolding memory_put put
  put_state m k w v h = elim (Result-cases (memory_put_outcome hex address worded m w).0) [
    | inl (o, e) ↦ ground arith
    | inr (x, e) ↦ absurd (ground arith)
  ]

  -- A put keeps what a load answers.
  pub load-keeps :
      (n m : CasNodeInput) (id k : ContentId) (w v : World)
      → memory_load hex address id w ≡ (ok n, w)
      → memory_put hex address worded m w ≡ (ok k, v)
      → memory_load hex address id v ≡ (ok n, v)
  unfolding memory_put put memory_load load_resident world_reader load
  load-keeps n m id k w v l h = elim (Option-cases (lookup id w.plane.nodes)) [
    | inl e ↦ absurd (ground arith)
    | inr (b, e) ↦
        let verified : verify_node_bytes hex address id b ≡ ok n = ground arith in
        let moved : (memory_put_outcome hex address worded m w).1 ≡ v = put_state m k w v h in
        load_held hex address id v b n
          (subst (λ (t : World). lookup id t.plane.nodes ≡ some b) moved
            (put-keeps hex address worded m w id b e))
          verified
  ]
