-- ===== src/Graph/Order.antt =====
-- The order of a closure: the references of a node come before it.
use foldlab.Base.{
  ℕ, ◌<◌, ◌≡◌, inl, inr, refl, sym, true, Option, none, some, List, [], ◌∷◌, ◌++◌, get_elem?, ok,
  Bool-cases, text_eq, text_eq_iff, arith,
}
use mathlib.Core.Path.{subst}
use foldlab.Node.{ContentId, HexCodec}
use foldlab.Backend.{contains, ByteReader}
use foldlab.Graph.{Frame, Walk, visit, walk_step, closure_refs, closure}
use foldlab.Graph.Sets.{get_elem?-bound}
use foldlab.Graph.Walks.{Current, IsWalk, IsWalk-start, frame_ids}
use foldlab.Graph.Closure.{
  Refers, walk_step-visit, walk_step-IsWalk, at_frame, walk_with-end, closure_refs-IsSteady,
}

module _ (Refers : ContentId → List ContentId → Type 0) where
  -- Every identifier comes after all of its references.
  pub data ChildrenFirst : List ContentId → Type 0 where
    start : ChildrenFirst []
    after :
        (ids : List ContentId) (x : ContentId) (refs : List ContentId)
        → ChildrenFirst ids
        → Refers x refs
        → ((i : ℕ) (child : ContentId) → get_elem? refs i ≡ some child → contains child ids ≡ true)
        → ChildrenFirst (ids ++ x ∷ [])

  -- References lead from a higher rank to a lower one: no identifier reaches itself.
  abbrev pub Acyclic : (ContentId → ℕ) → Type 0
  Acyclic rank =
      (x : ContentId) (refs : List ContentId) (i : ℕ) (child : ContentId)
      → Refers x refs
      → get_elem? refs i ≡ some child
      → rank child < rank x

module _ (Refers : ContentId → List ContentId → Type 0) (rank : ContentId → ℕ)
    (acyclic : Acyclic Refers rank) where
  -- The frames rise in rank from the top of the stack on.
  abbrev pub Rising : List ContentId → Type 0
  Rising [] = Unit {0}
  Rising (x ∷ ids) = ((y : ContentId) → contains y ids ≡ true → rank x < rank y) × Rising ids

  pub record IsOrdered (root : ContentId) (w : Walk) : Type 0 where
    pub walk : IsWalk Refers root w
    pub first : ChildrenFirst Refers w.ordered
    pub rising : Rising (frame_ids w.stack)

  pub visit-orders :
      (root : ContentId) (ordered pushed : List ContentId) (frame : Frame) (rest : List Frame)
      → IsWalk Refers root (record { ordered = ordered; pushed = pushed; stack = frame ∷ rest })
      → ChildrenFirst Refers ordered
      → Rising (frame.id ∷ frame_ids rest)
      → (refs : List ContentId) → Current Refers pushed frame.id frame.next refs
      → (next : Option ContentId) → get_elem? refs frame.next ≡ next
      → let v =
          visit frame refs rest
            (record { ordered = ordered; pushed = pushed; stack = frame ∷ rest })
            next in
        ChildrenFirst Refers v.ordered × Rising (frame_ids v.stack)
  unfolding visit contains
  visit-orders root ordered pushed frame rest walk first rising refs current none e =
      (after ordered frame.id refs first current.refers before, rising.1)
    where
      before :
          (i : ℕ) (child : ContentId)
          → get_elem? refs i ≡ some child
          → contains child ordered ≡ true
      before i child k =
          let lower = acyclic frame.id refs i child current.refers k in
          let p = current.seen i child (get_elem?-bound refs frame.next i child e k) k in
          elim (Bool-cases (contains child ordered)) [
            | inl h ↦ h
            | inr h ↦ elim (Bool-cases (text_eq frame.id child)) [
              | inl s ↦
                  let q : frame.id ≡ child = (text_eq_iff frame.id child).0 s in
                  let lower' : rank frame.id < rank frame.id =
                    subst (λ x. rank x < rank frame.id) (sym q) lower in
                  absurd (omega arith)
              | inr s ↦
                  let higher = rising.0 child (ground (arith, walk.covered child)) in
                  absurd (omega arith)
            ]
          ]
  visit-orders root ordered pushed frame rest walk first rising refs current (some child) e =
      elim (Bool-cases (contains child pushed)) [
        | inl h ↦ rw h (first, rising)
        | inr h ↦ rw h (first, (above, rising))
      ]
    where
      above : (y : ContentId) → contains y (frame.id ∷ frame_ids rest) ≡ true → rank child < rank y
      above y k =
          let lower = acyclic frame.id refs frame.next child current.refers e in
          elim (Bool-cases (text_eq frame.id y)) [
            | inl s ↦
                let q : frame.id ≡ y = (text_eq_iff frame.id y).0 s in
                subst (λ x. rank child < rank x) q lower
            | inr s ↦ let higher = rising.0 y (ground arith) in omega arith
          ]

module _ (hex : HexCodec) {S : Type 0} (reader : ByteReader S) (s : S)
    (pure : (id : ContentId) → (reader.load_bytes id s).1 ≡ s) (rank : ContentId → ℕ)
    (acyclic : Acyclic (Refers (closure_refs hex reader) s) rank) where
  abbrev References : ContentId → List ContentId → Type 0
  References = Refers (closure_refs hex reader) s

  step-orders :
      (root : ContentId) (frame : Frame) (rest : List Frame) (w v : Walk) (u : S)
      → w.stack ≡ frame ∷ rest
      → IsOrdered References rank acyclic root w
      → walk_step (closure_refs hex reader) frame rest w s ≡ (ok v, u)
      → (u ≡ s) × IsOrdered References rank acyclic root v
  step-orders root frame rest w v u e o h =
      let steady = closure_refs-IsSteady hex reader s pure in
      let (same, (refs, current, q, kept)) =
        walk_step-visit (closure_refs hex reader) s steady root frame rest w v u e o.walk h in
      let (first, rising) =
        visit-orders References rank acyclic root w.ordered w.pushed frame rest
          (at_frame (closure_refs hex reader) s steady root frame rest w e o.walk) o.first
          (subst (λ stack. Rising References rank acyclic (frame_ids stack)) e o.rising) refs
          current (get_elem? refs frame.next) refl in
      (
        same,
        record {
          walk =
              (walk_step-IsWalk (closure_refs hex reader) s steady root frame rest w v u e o.walk
                h).1;
          first = subst (λ (w : Walk). ChildrenFirst References w.ordered) q first;
          rising =
              subst (λ (w : Walk). Rising References rank acyclic (frame_ids w.stack)) q rising;
        },
      )

  -- Over a reader whose reads change nothing and whose references make no cycle, in the closure that a walk
  -- answers every identifier comes after all that its node references: the order is one to upload in.
  pub closure-ChildrenFirst :
      (root : ContentId) (rounds : ℕ) (ids : List ContentId) (t : S)
      → closure hex reader rounds root s ≡ (ok (some ids), t)
      → ChildrenFirst References ids
  unfolding closure contains
  closure-ChildrenFirst root rounds ids t h =
      walk_with-end (closure_refs hex reader) s (IsOrdered References rank acyclic root)
        (ChildrenFirst References) ids (step-orders root) (λ w o e. o.first) root rounds t
        (record {
          walk = IsWalk-start References root;
          first = start;
          rising = (λ y k. absurd (ground arith), tt);
        })
        h
