-- ===== src/Store/Memory/Runs.antt =====
-- What loads answer after any run of puts, from the empty store on.
use foldlab.Base.{ℕ, ◌≡◌, ok, some, List, [], ◌∷◌, All, Bool}
use foldlab.Node.{ContentId, HexCodec, CasReference, CasNodeInput}
use foldlab.Node.Checks.{All-map}
use foldlab.Codec.{encode_cas_node}
use foldlab.Backend.{lookup}
use foldlab.Store.{CasAddress}
use foldlab.Store.Verify.{load_sound}
use foldlab.Store.Memory.{World, world_reader, memory_load, memory_put_outcome, empty_world}
use foldlab.Store.Memory.Invariant.{IsClosed, IsClosed-empty, put-IsClosed, load-closed}

module _ (hex : HexCodec) (address : CasAddress) where
  -- Puts one after another, each in the store that the last one left, whatever it answered.
  abbrev pub run_puts : Bool → List CasNodeInput → World → World
  run_puts worded [] w = w
  run_puts worded (n ∷ ns) w = run_puts worded ns (memory_put_outcome hex address worded n w).1

  run_puts-IsClosed :
      (worded : Bool) (ns : List CasNodeInput) (w : World)
      → IsClosed hex address w
      → IsClosed hex address (run_puts worded ns w)
  run_puts-IsClosed worded [] w c = c
  run_puts-IsClosed worded (n ∷ ns) w c =
      run_puts-IsClosed worded ns (memory_put_outcome hex address worded n w).1
        (put-IsClosed hex address worded n w c)

  -- A reference that a load follows: to a node of the kind that it declares, at its own address.
  abbrev pub Followed : World → CasReference → Type 0
  Followed w ref =
      (m : CasNodeInput) × (memory_load hex address ref.id w ≡ (ok m, w))
      × (m.kind.tag ≡ ref.expected_tag)
      × (address.digest (encode_cas_node hex m) ≡ ok ref.id)

  load-addressed :
      (id : ContentId) (w v : World) (n : CasNodeInput)
      → memory_load hex address id w ≡ (ok n, v)
      → address.digest (encode_cas_node hex n) ≡ ok id
  unfolding memory_load
  load-addressed id w v n h = (load_sound hex address world_reader id w v n h).0

  -- After any run of puts from the empty store, whatever each of them answered: a load of a resident address
  -- answers a node at that address, and each of its references loads in its turn, as a node at its own
  -- address and of the kind that the reference declares. The loads change nothing.
  pub load-run_puts :
      (worded : Bool) (ns : List CasNodeInput) (id : ContentId) (bytes : List ℕ)
      → lookup id (run_puts worded ns empty_world).plane.nodes ≡ some bytes
      → (n : CasNodeInput) × (memory_load hex address id (run_puts worded ns empty_world)
          ≡ (ok n, run_puts worded ns empty_world))
        × (address.digest (encode_cas_node hex n) ≡ ok id)
        × All (Followed (run_puts worded ns empty_world)) n.refs
  load-run_puts worded ns id bytes h =
      let w : World = run_puts worded ns empty_world in
      let (n, held, refs) =
        load-closed hex address w id bytes
          (run_puts-IsClosed worded ns empty_world (IsClosed-empty hex address)) h in
      (
        n,
        held,
        load-addressed id w w n held,
        All-map (λ ref (k, l, t). (k, l, t, load-addressed ref.id w w k l)) n.refs refs,
      )
