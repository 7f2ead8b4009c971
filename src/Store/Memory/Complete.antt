-- ===== src/Store/Memory/Complete.antt =====
-- A put whose node, address and references are in order is not refused.
use foldlab.Base.{ℕ, ◌≡◌, refl, ◌∙◌, ok, Option, none, some, List, [], ◌∷◌, All, map, arith, Bool}
use foldlab.Node.{ContentId, HexCodec, CasReference, CasNodeInput}
use foldlab.Codec.{encode_cas_node}
use foldlab.Admission.{AdmissionFacts}
use foldlab.Admission.Verdicts.{Resolves, judge-admit_iff, judge-already_resident_iff}
use foldlab.Backend.{lookup}
use foldlab.Store.{CasAddress, fresh, duplicate, reference_tags, admission_facts}
use foldlab.Store.Memory.{World, world_reader, memory_put_outcome}
use foldlab.Store.Memory.Steps.{IsResident, IsPutAt, written, put_settles, tags_pure}

abbrev pub declared : List CasReference → List (Option ℕ)
declared = map (λ ref. some ref.expected_tag)

pub declared-Resolves : (refs : List CasReference) → Resolves refs (declared refs)
declared-Resolves [] = tt
declared-Resolves (ref ∷ refs) = (refl, declared-Resolves refs)

module _ (hex : HexCodec) (address : CasAddress) where
  tags-declared :
      (refs : List CasReference) (w : World)
      → All (IsResident hex address w) refs
      → (reference_tags hex address world_reader refs w).0 ≡ ok (declared refs)
  unfolding reference_tags world_reader
  tags-declared [] w h = refl
  tags-declared (ref ∷ refs) w (h, hs) =
      ground
        (arith, h.held, h.verified, h.typed, tags_pure hex address refs w, tags-declared refs w hs)

  module _ (worded : Bool) (n : CasNodeInput) (w : World) (id : ContentId)
      (at : IsPutAt hex address worded n w id) where
    abbrev facts : AdmissionFacts
    facts = record { ref_tags = declared n.refs; resident = lookup id w.plane.nodes }

    facts-held : (admission_facts hex address world_reader n id w).0 ≡ ok facts
    unfolding admission_facts world_reader
    facts-held = ground (arith, tags-declared n.refs w at.resolved, tags_pure hex address n.refs w)

    pub put-admits :
        lookup id w.plane.nodes ≡ none
        → memory_put_outcome hex address worded n w
          ≡ (ok (fresh id), written hex address worded n w id)
    unfolding memory_put_outcome
    put-admits h =
        put_settles hex address worded n w id facts at.valid at.known at.addressed facts-held
        ∙ rw ((judge-admit_iff hex n at.valid facts).1 ((at.known, declared-Resolves n.refs), h))
            (ground arith)

    pub put-joins :
        lookup id w.plane.nodes ≡ some (encode_cas_node hex n)
        → memory_put_outcome hex address worded n w ≡ (ok (duplicate id), w)
    unfolding memory_put_outcome
    put-joins h =
        put_settles hex address worded n w id facts at.valid at.known at.addressed facts-held
        ∙ rw
            ((judge-already_resident_iff hex n at.valid facts).1
              ((at.known, declared-Resolves n.refs), h))
            (ground arith)
