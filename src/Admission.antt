-- ===== src/Admission.antt =====
-- library/effects/src/internal/admission.ts: the one judgment that decides what enters the store.
pub mod Verdicts
use foldlab.Base.{
  ℕ, Bool, true, false, Option, none, some, List, [], ◌∷◌, get_or, ◌==◌, not, if◌then◌else◌,
}
use foldlab.Node.{ContentId, HexCodec, CasReference, CasNodeInput}
use foldlab.Codec.{bytes_equal, encode_cas_node, decode_cas_node, cas_scheme_version}

-- What the byte plane answered: the tag of each referenced node, `none` where it is absent, and the
-- bytes that are resident at the candidate's own address.
pub record AdmissionFacts : Type 0 where
  pub ref_tags : List (Option ℕ)
  pub resident : Option (List ℕ)

pub data AdmissionVerdict : Type 0 where
  admit : CasNodeInput → AdmissionVerdict
  already_resident : CasNodeInput → AdmissionVerdict
  non_canonical : AdmissionVerdict
  unknown_kind : ℕ → ℕ → AdmissionVerdict
  dangling_reference : ContentId → AdmissionVerdict
  wrong_kind_reference : ContentId → ℕ → ℕ → AdmissionVerdict
  collision : AdmissionVerdict

pub kind_tag_of_canonical : List ℕ → ℕ
kind_tag_of_canonical bytes = get_or bytes 1 0

-- The loop over the references: the first that is absent or of another kind decides. A fact that is
-- missing from the list counts as absent.
pub judge_refs : List CasReference → List (Option ℕ) → Option AdmissionVerdict
judge_refs [] tags = none
judge_refs (ref ∷ refs) [] = some (dangling_reference ref.id)
judge_refs (ref ∷ refs) (none ∷ tags) = some (dangling_reference ref.id)
judge_refs (ref ∷ refs) (some actual ∷ tags) =
    let rest = judge_refs refs tags in
    if not (actual == ref.expected_tag)
    then some (wrong_kind_reference ref.id ref.expected_tag actual)
    else rest

-- The last step: identical bytes join, different bytes collide.
pub judge_resident : CasNodeInput → List ℕ → Option (List ℕ) → AdmissionVerdict
judge_resident node canonical none = admit node
judge_resident node canonical (some bytes) =
    if bytes_equal bytes canonical then already_resident node else collision

abbrev or_verdict : Option AdmissionVerdict → AdmissionVerdict → AdmissionVerdict
or_verdict none v = v
or_verdict (some v) w = v

module _ (hex : HexCodec) where
  pub canonical_node : List ℕ → Option CasNodeInput
  canonical_node bytes = elim (decode_cas_node hex bytes) [
    | none ↦ none
    | some node ↦ if bytes_equal (encode_cas_node hex node) bytes then some node else none
  ]

  unfoldable pub judge_admission : List ℕ → AdmissionFacts → AdmissionVerdict
  unfolding canonical_node judge_refs judge_resident
  judge_admission canonical facts = elim (canonical_node canonical) [
    | none ↦ non_canonical
    | some node ↦
        if not (node.kind.version == cas_scheme_version)
        then unknown_kind node.kind.version node.kind.tag
        else or_verdict (judge_refs node.refs facts.ref_tags)
            (judge_resident node canonical facts.resident)
  ]
