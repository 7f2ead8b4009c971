-- ===== src/Graph/Audit/Visits.antt =====
-- The ends of an iteration of the audit.
use foldlab.Base.{
  ◌+◌, ◌≡◌, ◌⊎◌, inl, inr, true, none, some, List, [], ◌∷◌, ◌++◌, get_elem?, All, Bool-cases,
  text_eq, text_eq_iff, text_eq_refl, arith,
}
use mathlib.Core.Path.{subst}
use foldlab.Node.{ContentId, HexCodec, CasNodeInput, CasReference}
use foldlab.Node.Checks.{All-map}
use foldlab.Backend.{contains, ByteReader}
use foldlab.Store.{CasAddress}
use foldlab.Graph.Sets.{contains-append, get_elem?-bound}
use foldlab.Graph.Audit.{AuditFrame, Edge, push_child}
use foldlab.Graph.Audit.Checked.{
  Serves, IsTyped, Checked, Finished, FrameIs, IsCache, IsAudit, more, Finished-more, Checked-more,
  FrameIs-more, Checked-next, audit_ids,
}

module _ (hex : HexCodec) (address : CasAddress) {S : Type 0} (reader : ByteReader S) (s : S) where
  -- The three ends of an iteration.
  module _ (root : ContentId) (pushed : List ContentId) (frame : AuditFrame)
      (rest : List AuditFrame) (verified : List (ContentId × CasNodeInput)) (edges : List Edge)
      (rooted : contains root pushed ≡ true) (cache : IsCache hex address reader s verified)
      (split : (x : ContentId)
        → contains x pushed ≡ true
        → (contains x (frame.id ∷ audit_ids rest) ≡ true) ⊎ Finished hex address reader s pushed x)
      (frames : All
        (λ (f : AuditFrame). FrameIs hex address reader s pushed f.id f.next f.node)
        rest)
      (node : CasNodeInput) (serves : Serves hex address reader s frame.id node)
      (checked : Checked hex address reader s pushed frame.next node) where
    pub end-IsAudit :
        get_elem? node.refs frame.next ≡ none
        → IsAudit hex address reader s root
            (record { pushed = pushed; verified = verified; edges = edges; stack = rest })
    unfolding contains
    end-IsAudit e = record {
      rooted = rooted;
      cache = cache;
      split = λ x k. elim (split x k) [
        | inr f ↦ inr f
        | inl f ↦ elim (Bool-cases (text_eq frame.id x)) [
          | inr q ↦ inl (ground arith)
          | inl q ↦
              inr (
                subst (Finished hex address reader s pushed) ((text_eq_iff frame.id x).0 q)
                  finished)
        ]
      ];
      frames = frames;
    }
      where
        finished : Finished hex address reader s pushed frame.id
        finished = record {
          node = node;
          serves = serves;
          checked = λ i ref k. checked i ref (get_elem?-bound node.refs frame.next i ref e k) k;
        }

    abbrev moved : AuditFrame
    moved = record frame { node = some node; next = frame.next + 1 }

    module _ (ref : CasReference) (child : CasNodeInput)
        (e : get_elem? node.refs frame.next ≡ some ref)
        (child_serves : Serves hex address reader s ref.id child)
        (tagged : child.kind.tag ≡ ref.expected_tag) where
      abbrev typed : IsTyped hex address reader s ref
      typed = record { node = child; serves = child_serves; typed = tagged }

      known-IsAudit :
          contains ref.id pushed ≡ true
          → IsAudit hex address reader s root
              (record { pushed = pushed; verified = verified; edges = edges; stack = moved ∷ rest })
      known-IsAudit h = record {
        rooted = rooted;
        cache = cache;
        split = split;
        frames = (
          record {
            serves = serves;
            checked =
                Checked-next hex address reader s pushed node frame.next ref checked e (h, typed);
          },
          frames,
        );
      }

      abbrev child_frame : AuditFrame
      child_frame = record { id = ref.id; node = some child; next = 0 }

      new-IsAudit : IsAudit hex address reader s root (record {
        pushed = pushed ++ ref.id ∷ [];
        verified = verified;
        edges = edges;
        stack = child_frame ∷ moved ∷ rest;
      })
      unfolding contains
      new-IsAudit = record {
        rooted = more hex address reader s ref.id root pushed rooted;
        cache = cache;
        split = λ x k. elim (Bool-cases (text_eq ref.id x)) [
          | inl q ↦ inl (ground arith)
          | inr q ↦ elim (split x (ground (arith, contains-append ref.id x pushed))) [
            | inl f ↦ inl (ground arith)
            | inr f ↦ inr (Finished-more hex address reader s ref.id x pushed f)
          ]
        ];
        frames = (
          record { serves = child_serves; checked = λ i other less k. absurd (omega arith) },
          (
            record {
              serves = serves;
              checked =
                  Checked-next hex address reader s (pushed ++ ref.id ∷ []) node frame.next ref
                    (Checked-more hex address reader s ref.id pushed frame.next node checked) e
                    (
                      ground (arith, contains-append ref.id ref.id pushed, text_eq_refl ref.id),
                      typed,
                    );
            },
            All-map (λ f k. FrameIs-more hex address reader s ref.id f.id pushed f.next f.node k)
                rest frames,
          ),
        );
      }

      pub push_child-IsAudit : IsAudit hex address reader s root (
          push_child ref child
            (record { pushed = pushed; verified = verified; edges = edges; stack = moved ∷ rest }))
      unfolding push_child
      push_child-IsAudit = elim (Bool-cases (contains ref.id pushed)) [
        | inl h ↦ rw h (known-IsAudit h)
        | inr h ↦ rw h new-IsAudit
      ]
