-- ===== src/Admission/Verdicts.antt =====
-- What the judgment answers, on every branch.
use foldlab.Base.{
  ℕ, ◌≡◌, ◌≢◌, refl, ◌↔◌, inl, inr, Option, none, some, List, [], ◌∷◌, ◌++◌, length, All, ◌==◌, not,
  if◌then◌else◌, Bool-cases, Option-cases, ap, ◌∙◌, arith,
}
use foldlab.Node.{IsByte, HexCodec, CasReference, CasNodeInput}
use foldlab.Node.Checks.{IsNode}
use foldlab.Codec.{encode_cas_node, decode_cas_node, cas_scheme_version}
use foldlab.Codec.Bytes.{bytes_equal_iff, bytes_equal_refl}
use foldlab.Codec.RoundTrip.{decode-encode_cas_node, encode-decode_cas_node}
use foldlab.Admission.{
  AdmissionFacts, AdmissionVerdict, admit, already_resident, unknown_kind, dangling_reference,
  wrong_kind_reference, judge_refs, judge_resident, or_verdict, canonical_node, judge_admission,
}

module _ (hex : HexCodec) where
  -- The canonical decoder reads the encoding of a valid node as that node.
  pub canonical_node-encode :
      (n : CasNodeInput) → IsNode n → canonical_node hex (encode_cas_node hex n) ≡ some n
  unfolding canonical_node
  canonical_node-encode n h =
      ground (arith, decode-encode_cas_node hex n h, bytes_equal_refl (encode_cas_node hex n))

  -- On arrays of bytes the comparison with the second encoding refuses nothing.
  pub canonical_node-eq-decode :
      (bs : List ℕ) → All IsByte bs → canonical_node hex bs ≡ decode_cas_node hex bs
  unfolding canonical_node
  canonical_node-eq-decode bs all = elim (Option-cases (decode_cas_node hex bs)) [
    | inl e ↦ ground arith
    | inr (n, e) ↦ ground (arith, encode-decode_cas_node hex bs n all e, bytes_equal_refl bs)
  ]

-- Every reference has a fact, and the fact is the kind that the reference declares.
abbrev pub Resolves : List CasReference → List (Option ℕ) → Type 0
Resolves [] tags = Unit
Resolves (ref ∷ refs) [] = ⊥
Resolves (ref ∷ refs) (tag ∷ tags) = (tag ≡ some ref.expected_tag) × Resolves refs tags

pub judge_refs-none_iff :
    (refs : List CasReference) (tags : List (Option ℕ))
    → (judge_refs refs tags ≡ none) ↔ Resolves refs tags
unfolding judge_refs
judge_refs-none_iff [] tags = (λ h. tt, λ h. refl)
judge_refs-none_iff (ref ∷ refs) [] = (λ h. cc, λ h. absurd h)
judge_refs-none_iff (ref ∷ refs) (none ∷ tags) = (λ h. cc, λ h. cc (h.0))
judge_refs-none_iff (ref ∷ refs) (some t ∷ tags) = ground (arith, judge_refs-none_iff refs tags)

-- The refusal of a reference whose fact is not the kind that it declares.
abbrev pub refusal : CasReference → Option ℕ → AdmissionVerdict
refusal ref none = dangling_reference ref.id
refusal ref (some actual) = wrong_kind_reference ref.id ref.expected_tag actual

-- Where the references before it resolve, a reference whose fact is not its declared kind decides:
-- it dangles where the fact is an absence, and is of the wrong kind where it is another kind.
pub judge_refs-first :
    (front back : List CasReference) (ref : CasReference) (tags more : List (Option ℕ))
    (tag : Option ℕ)
    → length front ≡ length tags
    → Resolves front tags
    → tag ≢ some ref.expected_tag
    → judge_refs (front ++ ref ∷ back) (tags ++ tag ∷ more) ≡ some (refusal ref tag)
unfolding judge_refs
judge_refs-first [] back ref [] more none h r ne = refl
judge_refs-first [] back ref [] more (some t) h r ne = ground arith
judge_refs-first [] back ref (t ∷ tags) more tag h r ne = absurd (omega arith)
judge_refs-first (x ∷ front) back ref [] more tag h r ne = absurd (omega arith)
judge_refs-first (x ∷ front) back ref (none ∷ tags) more tag h r ne = cc (r.0)
judge_refs-first (x ∷ front) back ref (some t ∷ tags) more tag h r ne =
    ground (arith, judge_refs-first front back ref tags more tag (omega arith) r.1 ne)

judge_refs-ne-admit :
    (refs : List CasReference) (tags : List (Option ℕ)) (n : CasNodeInput)
    → judge_refs refs tags ≢ some (admit n)
unfolding judge_refs
judge_refs-ne-admit [] tags n = λ h. cc
judge_refs-ne-admit (ref ∷ refs) [] n = λ h. cc
judge_refs-ne-admit (ref ∷ refs) (none ∷ tags) n = λ h. cc
judge_refs-ne-admit (ref ∷ refs) (some t ∷ tags) n =
    λ h. ground (arith, judge_refs-ne-admit refs tags n)

judge_refs-ne-already :
    (refs : List CasReference) (tags : List (Option ℕ)) (n : CasNodeInput)
    → judge_refs refs tags ≢ some (already_resident n)
unfolding judge_refs
judge_refs-ne-already [] tags n = λ h. cc
judge_refs-ne-already (ref ∷ refs) [] n = λ h. cc
judge_refs-ne-already (ref ∷ refs) (none ∷ tags) n = λ h. cc
judge_refs-ne-already (ref ∷ refs) (some t ∷ tags) n =
    λ h. ground (arith, judge_refs-ne-already refs tags n)

judge_resident-admit_iff :
    (n : CasNodeInput) (bs : List ℕ) (o : Option (List ℕ))
    → (judge_resident n bs o ≡ admit n) ↔ (o ≡ none)
unfolding judge_resident
judge_resident-admit_iff n bs none = (λ h. refl, λ h. refl)
judge_resident-admit_iff n bs (some b) = (λ h. ground arith, λ h. cc)

judge_resident-already_iff :
    (n : CasNodeInput) (bs : List ℕ) (o : Option (List ℕ))
    → (judge_resident n bs o ≡ already_resident n) ↔ (o ≡ some bs)
unfolding judge_resident
judge_resident-already_iff n bs none = (λ h. cc, λ h. cc)
judge_resident-already_iff n bs (some b) =
    (λ h. ground (arith, bytes_equal_iff b bs), λ h. ground (arith, bytes_equal_iff b bs))

judge_resident-admit_inv :
    (n m : CasNodeInput) (bs : List ℕ) (o : Option (List ℕ))
    → judge_resident n bs o ≡ admit m
    → o ≡ none
unfolding judge_resident
judge_resident-admit_inv n m bs none h = refl
judge_resident-admit_inv n m bs (some b) h = ground arith

judge_resident-already_inv :
    (n m : CasNodeInput) (bs : List ℕ) (o : Option (List ℕ))
    → judge_resident n bs o ≡ already_resident m
    → o ≡ some bs
unfolding judge_resident
judge_resident-already_inv n m bs none h = cc
judge_resident-already_inv n m bs (some b) h = ground (arith, bytes_equal_iff b bs)

module _ (hex : HexCodec) (n : CasNodeInput) (valid : IsNode n) (facts : AdmissionFacts) where
  -- On the encoding of a valid node the judgment is about the node.
  judge-encode : judge_admission hex (encode_cas_node hex n) facts ≡ (
      if not (n.kind.version == cas_scheme_version)
      then unknown_kind n.kind.version n.kind.tag
      else or_verdict
          (judge_refs n.refs facts.ref_tags)
          (judge_resident n (encode_cas_node hex n) facts.resident))
  unfolding judge_admission
  judge-encode = ground (arith, canonical_node-encode hex n valid)

  abbrev pub IsAdmissible : Type 0
  IsAdmissible = (n.kind.version ≡ cas_scheme_version) × Resolves n.refs facts.ref_tags

  -- The encoding of a valid node is admitted exactly when its kind is known, every reference resolves
  -- at its declared kind and nothing is resident at its address.
  pub judge-admit_iff :
      (judge_admission hex (encode_cas_node hex n) facts ≡ admit n)
      ↔ (IsAdmissible × (facts.resident ≡ none))
  judge-admit_iff = (
    λ h. ground (
      arith,
      judge-encode,
      judge_refs-none_iff n.refs facts.ref_tags,
      judge_refs-ne-admit n.refs facts.ref_tags n,
      judge_resident-admit_iff n (encode_cas_node hex n) facts.resident,
    ),
    λ h. ground (
      arith,
      judge-encode,
      (judge_refs-none_iff n.refs facts.ref_tags).1 h.0.1,
      judge_resident-admit_iff n (encode_cas_node hex n) facts.resident,
    ),
  )

  -- It joins as already resident exactly when its kind is known, every reference resolves and its own
  -- bytes are resident.
  pub judge-already_resident_iff :
      (judge_admission hex (encode_cas_node hex n) facts ≡ already_resident n)
      ↔ (IsAdmissible × (facts.resident ≡ some (encode_cas_node hex n)))
  judge-already_resident_iff = (
    λ h. ground (
      arith,
      judge-encode,
      judge_refs-none_iff n.refs facts.ref_tags,
      judge_refs-ne-already n.refs facts.ref_tags n,
      judge_resident-already_iff n (encode_cas_node hex n) facts.resident,
    ),
    λ h. ground (
      arith,
      judge-encode,
      (judge_refs-none_iff n.refs facts.ref_tags).1 h.0.1,
      judge_resident-already_iff n (encode_cas_node hex n) facts.resident,
    ),
  )

  -- An admission, whichever node it names, is the node's own.
  pub judge-admitted :
      (m : CasNodeInput)
      → judge_admission hex (encode_cas_node hex n) facts ≡ admit m
      → IsAdmissible × (facts.resident ≡ none)
  judge-admitted m h = ground (
    arith,
    judge-encode,
    judge_refs-none_iff n.refs facts.ref_tags,
    judge_refs-ne-admit n.refs facts.ref_tags m,
    judge_resident-admit_inv n m (encode_cas_node hex n) facts.resident,
  )

  pub judge-joined :
      (m : CasNodeInput)
      → judge_admission hex (encode_cas_node hex n) facts ≡ already_resident m
      → IsAdmissible × (facts.resident ≡ some (encode_cas_node hex n))
  judge-joined m h = ground (
    arith,
    judge-encode,
    judge_refs-none_iff n.refs facts.ref_tags,
    judge_refs-ne-already n.refs facts.ref_tags m,
    judge_resident-already_inv n m (encode_cas_node hex n) facts.resident,
  )

module _ (hex : HexCodec) where
  -- The canonical decoder answers a node that the bytes are the encoding of.
  pub canonical_node-decodes :
      (bs : List ℕ) (n : CasNodeInput)
      → canonical_node hex bs ≡ some n
      → (decode_cas_node hex bs ≡ some n) × (encode_cas_node hex n ≡ bs)
  unfolding canonical_node
  canonical_node-decodes bs n h = elim (Option-cases (decode_cas_node hex bs)) [
    | inl e ↦ ground arith
    | inr (m, e) ↦ ground (arith, bytes_equal_iff (encode_cas_node hex m) bs)
  ]

judge_refs_refuses :
    (refs : List CasReference) (tags : List (Option ℕ)) (n : CasNodeInput)
    → judge_refs refs tags ≢ some (admit n)
unfolding judge_refs
judge_refs_refuses [] tags n h = cc
judge_refs_refuses (ref ∷ refs) [] n h = cc
judge_refs_refuses (ref ∷ refs) (none ∷ tags) n h = cc
judge_refs_refuses (ref ∷ refs) (some actual ∷ tags) n h =
    elim (Bool-cases (actual == ref.expected_tag)) [
      | inl e ↦ judge_refs_refuses refs tags n (ground arith)
      | inr e ↦ absurd (ground arith)
    ]

-- Only what is not resident is admitted.
pub admit_absent :
    (hex : HexCodec) (bytes : List ℕ) (facts : AdmissionFacts) (n : CasNodeInput)
    → judge_admission hex bytes facts ≡ admit n
    → facts.resident ≡ none
unfolding judge_admission judge_resident
admit_absent hex bytes facts n h = elim (Option-cases facts.resident) [
  | inl e ↦ e
  | inr (b, e) ↦ elim (Option-cases (canonical_node hex bytes)) [
    | inl c ↦ absurd (ground arith)
    | inr (m, c) ↦ elim (Option-cases (judge_refs m.refs facts.ref_tags)) [
      | inl r ↦ absurd (ground arith)
      | inr (v, r) ↦ elim (Bool-cases (m.kind.version == cas_scheme_version)) [
        | inr k ↦ absurd (ground arith)
        | inl k ↦
            let q : v ≡ admit n = ground arith in
            absurd (judge_refs_refuses m.refs facts.ref_tags n (r ∙ ap some q))
      ]
    ]
  ]
]
