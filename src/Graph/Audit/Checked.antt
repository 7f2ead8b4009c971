-- ===== src/Graph/Audit/Checked.antt =====
-- What an audit that succeeds has checked: every node that the root reaches.
use foldlab.Base.{
  ℕ, ◌+◌, ◌<◌, ◌≡◌, ◌⊎◌, inl, inr, true, Option, none, some, List, [], ◌∷◌, ◌++◌, map, get_elem?,
  ◌==◌, All, ok, Bool-cases, arith,
}
use mathlib.Core.Path.{subst}
use foldlab.Node.{ContentId, HexCodec, CasNodeInput, CasReference}
use foldlab.Backend.{contains, ByteReader}
use foldlab.Store.{CasAddress, verify_node_bytes}
use foldlab.Graph.Sets.{contains-append}
use foldlab.Graph.Audit.{AuditFrame, Audit, cached}

abbrev pub audit_ids : List AuditFrame → List ContentId
audit_ids stack = map (λ (frame : AuditFrame). frame.id) stack

module _ (hex : HexCodec) (address : CasAddress) {S : Type 0} (reader : ByteReader S) (s : S) where
  -- The reader serves the node at `id`: bytes that verify.
  pub record Serves (id : ContentId) (n : CasNodeInput) : Type 0 where
    pub bytes : List ℕ
    pub served : (reader.load_bytes id s).0 ≡ ok (some bytes)
    pub verified : verify_node_bytes hex address id bytes ≡ ok n

  -- A reference whose node is served, at the kind that it declares.
  pub record IsTyped (ref : CasReference) : Type 0 where
    pub node : CasNodeInput
    pub serves : Serves ref.id node
    pub typed : node.kind.tag ≡ ref.expected_tag

  -- A node that is served, and so are the nodes of all its references, at the kinds that it declares.
  pub record IsFaithful (id : ContentId) : Type 0 where
    pub node : CasNodeInput
    pub serves : Serves id node
    pub refs : (i : ℕ) (ref : CasReference) → get_elem? node.refs i ≡ some ref → IsTyped ref

  -- The identifiers that a served node references.
  abbrev pub ServedRefs : ContentId → List ContentId → Type 0
  ServedRefs id ids =
      (n : CasNodeInput) × (Serves id n × (map (λ (ref : CasReference). ref.id) n.refs ≡ ids))

  abbrev pub Checked : List ContentId → ℕ → CasNodeInput → Type 0
  Checked pushed bound n =
      (i : ℕ) (ref : CasReference)
      → i < bound
      → get_elem? n.refs i ≡ some ref
      → (contains ref.id pushed ≡ true) × IsTyped ref

  pub record Finished (pushed : List ContentId) (id : ContentId) : Type 0 where
    pub node : CasNodeInput
    pub serves : Serves id node
    pub checked :
        (i : ℕ) (ref : CasReference)
        → get_elem? node.refs i ≡ some ref
        → (contains ref.id pushed ≡ true) × IsTyped ref

  pub record Current (pushed : List ContentId) (id : ContentId) (next : ℕ) (n : CasNodeInput)
      : Type 0 where
    pub serves : Serves id n
    pub checked : Checked pushed next n

  abbrev pub FrameIs : List ContentId → ContentId → ℕ → Option CasNodeInput → Type 0
  FrameIs pushed id next none = next ≡ 0
  FrameIs pushed id next (some n) = Current pushed id next n

  abbrev pub IsCache : List (ContentId × CasNodeInput) → Type 0
  IsCache verified = (id : ContentId) (n : CasNodeInput) → cached id verified ≡ some n → Serves id n

  pub record IsAudit (root : ContentId) (a : Audit) : Type 0 where
    pub rooted : contains root a.pushed ≡ true
    pub cache : IsCache a.verified
    pub split :
        (x : ContentId)
        → contains x a.pushed ≡ true
        → (contains x (audit_ids a.stack) ≡ true) ⊎ Finished a.pushed x
    pub frames : All (λ (f : AuditFrame). FrameIs a.pushed f.id f.next f.node) a.stack

  pub more :
      (x y : ContentId) (xs : List ContentId)
      → contains y xs ≡ true
      → contains y (xs ++ x ∷ []) ≡ true
  more x y xs h = ground (arith, contains-append x y xs)

  pub Finished-more :
      (x y : ContentId) (xs : List ContentId) → Finished xs y → Finished (xs ++ x ∷ []) y
  Finished-more x y xs d = record {
    node = d.node;
    serves = d.serves;
    checked = λ i ref e. let (c, t) = d.checked i ref e in (more x ref.id xs c, t);
  }

  pub Checked-more :
      (x : ContentId) (xs : List ContentId) (bound : ℕ) (n : CasNodeInput)
      → Checked xs bound n
      → Checked (xs ++ x ∷ []) bound n
  Checked-more x xs bound n k i ref less e = let (c, t) = k i ref less e in (more x ref.id xs c, t)

  pub FrameIs-more :
      (x id : ContentId) (xs : List ContentId) (next : ℕ) (node : Option CasNodeInput)
      → FrameIs xs id next node
      → FrameIs (xs ++ x ∷ []) id next node
  FrameIs-more x id xs next none h = h
  FrameIs-more x id xs next (some n) h = record {
    serves = h.serves;
    checked = Checked-more x xs next n h.checked;
  }

  pub Checked-next :
      (pushed : List ContentId) (n : CasNodeInput) (next : ℕ) (ref : CasReference)
      → Checked pushed next n
      → get_elem? n.refs next ≡ some ref
      → (contains ref.id pushed ≡ true) × IsTyped ref
      → Checked pushed (next + 1) n
  Checked-next pushed n next ref k e h i other less l = elim (Bool-cases (i == next)) [
    | inl q ↦
        let j : i ≡ next = ground arith in
        let o : get_elem? n.refs next ≡ some other = rw (← j) l in
        let c : ref ≡ other = cc in subst (λ r. (contains r.id pushed ≡ true) × IsTyped r) c h
    | inr q ↦ k i other (ground arith) l
  ]
