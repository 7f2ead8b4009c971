-- ===== src/Graph/Closure.antt =====
-- The closure that a walk answers, over a loader that changes nothing.
use foldlab.Base.{
  ℕ, zero, suc, ◌≡◌, ◌↔◌, inl, inr, refl, sym, ap, ◌∙◌, Bool, true, false, Option, none, some, List,
  [], ◌∷◌, length, get_elem?, ◌==◌, All, ok, Eff, >>=-eq-ok, Option-cases, Result-cases, arith,
  ◌&&◌,
}
use mathlib.Core.Path.{subst}
use foldlab.Node.{ContentId, CasError, HexCodec}
use foldlab.Backend.{contains, ByteReader}
use foldlab.Graph.{
  Frame, Walk, start_walk, visit, frame_refs, walk_step, walk_frames, walk_loop, walk_with,
  closure_refs, resident_bytes, resident_or, closure,
}
use foldlab.Graph.Sets.{distinct}
use foldlab.Graph.Walks.{
  Reaches, here, onward, Current, FrameIs, IsWalk, IsWalk-start, visit-IsWalk, frame_ids,
}

-- A property of walks that each step keeps, and that gives a property of what is ordered when no frame is left.
module _ {S : Type 0} (load_refs : ContentId → Bool → Eff S CasError (List ContentId)) (s : S)
    (P : Walk → Type 0) (Q : List ContentId → Type 0) (ids : List ContentId)
    (step : (frame : Frame) (rest : List Frame) (w v : Walk) (u : S)
      → w.stack ≡ frame ∷ rest
      → P w
      → walk_step load_refs frame rest w s ≡ (ok v, u)
      → (u ≡ s) × P v)
    (end : (w : Walk) → P w → w.stack ≡ [] → Q w.ordered) where
  frames-end :
      (continue : Walk → Eff S CasError (Option (List ContentId))) (t : S)
      → ((v : Walk) → P v → continue v s ≡ (ok (some ids), t) → Q ids)
      → (w : Walk) (stack : List Frame) → w.stack ≡ stack
      → P w
      → walk_frames load_refs continue w stack s ≡ (ok (some ids), t)
      → Q ids
  unfolding walk_frames
  frames-end continue t loop w [] e p h = subst Q (cc) (end w p e)
  frames-end continue t loop w (frame ∷ rest) e p h =
      let (v, u, k, l) = >>=-eq-ok continue (walk_step load_refs frame rest w) s h in
      let (same, q) = step frame rest w v u e p k in loop v q (ap (continue v) (sym same) ∙ l)

  loop-end :
      (rounds : ℕ) (w : Walk) (t : S)
      → P w
      → walk_loop load_refs rounds w s ≡ (ok (some ids), t)
      → Q ids
  unfolding walk_loop
  loop-end zero w t p h = cc
  loop-end (suc rounds) w t p h =
      frames-end (walk_loop load_refs rounds) t (λ v q k. loop-end rounds v t q k) w w.stack refl p
        h

  pub walk_with-end :
      (root : ContentId) (rounds : ℕ) (t : S)
      → P (start_walk root)
      → walk_with load_refs rounds root s ≡ (ok (some ids), t)
      → Q ids
  unfolding walk_with
  walk_with-end root rounds t p h = loop-end rounds (start_walk root) t p h

module _ {S : Type 0} (load_refs : ContentId → Bool → Eff S CasError (List ContentId)) (s : S) where
  -- The loader changes nothing, and answers the same references of a root as of a child.
  pub record IsSteady : Type 0 where
    pub pure : (id : ContentId) (is_root : Bool) → (load_refs id is_root s).1 ≡ s
    pub same :
        (id : ContentId) (is_root : Bool) (refs : List ContentId)
        → (load_refs id is_root s).0 ≡ ok refs
        → (load_refs id false s).0 ≡ ok refs

  -- What the loader answers as the references of `id`.
  abbrev pub Refers : ContentId → List ContentId → Type 0
  Refers id refs = (load_refs id false s).0 ≡ ok refs

  module _ (steady : IsSteady) where
    -- References that are loaded stay.
    abbrev pub Kept : Option (List ContentId) → List ContentId → Type 0
    Kept refs found = (known : List ContentId) → refs ≡ some known → known ≡ found

    frame_refs-Current :
        (pushed : List ContentId) (id : ContentId) (next : ℕ) (is_root : Bool)
        (refs : Option (List ContentId)) (found : List ContentId) (t : S)
        → FrameIs Refers pushed id next refs
        → frame_refs load_refs id is_root refs s ≡ (ok found, t)
        → (t ≡ s) × (Current Refers pushed id next found × Kept refs found)
    unfolding frame_refs
    frame_refs-Current pushed id next is_root none found t k h = (
      ground (arith, steady.pure id is_root),
      (
        record {
          refers = steady.same id is_root found (ground arith);
          seen = λ i child less e. absurd (omega arith);
        },
        λ known e. cc,
      ),
    )
    frame_refs-Current pushed id next is_root (some refs) found t k h =
        let q : refs ≡ found = cc in
        (cc, (subst (Current Refers pushed id next) q k, λ known e. cc))

    -- A step is a visit with the references of the top frame, at the same world.
    pub walk_step-visit :
        (root : ContentId) (frame : Frame) (rest : List Frame) (w v : Walk) (t : S)
        → w.stack ≡ frame ∷ rest
        → IsWalk Refers root w
        → walk_step load_refs frame rest w s ≡ (ok v, t)
        → (t ≡ s)
          × ((refs : List ContentId) × Current Refers w.pushed frame.id frame.next refs
              × (visit frame refs rest
                    (record { ordered = w.ordered; pushed = w.pushed; stack = frame ∷ rest })
                    (get_elem? refs frame.next)
                  ≡ v)
              × Kept frame.refs refs)
    unfolding walk_step
    walk_step-visit root frame rest w v t e walk h =
        elim (Result-cases (frame_refs load_refs frame.id is_root frame.refs s).0) [
          | inr (x, f) ↦ absurd (ground arith)
          | inl (refs, f) ↦
              let (p, (current, kept)) =
                frame_refs-Current w.pushed frame.id frame.next is_root frame.refs refs
                  (frame_refs load_refs frame.id is_root frame.refs s).1
                  (subst (All (λ (f : Frame). FrameIs Refers w.pushed f.id f.next f.refs)) e
                    walk.frames).0
                  (ground arith) in
              (ground arith, (refs, current, ground arith, kept))
        ]
      where
        is_root : Bool
        is_root = length w.ordered == 0 && length w.stack == 1

    pub at_frame :
        (root : ContentId) (frame : Frame) (rest : List Frame) (w : Walk)
        → w.stack ≡ frame ∷ rest
        → IsWalk Refers root w
        → IsWalk Refers root
            (record { ordered = w.ordered; pushed = w.pushed; stack = frame ∷ rest })
    at_frame root frame rest w e walk =
        subst
          (λ (stack : List Frame).
            IsWalk Refers root (record { ordered = w.ordered; pushed = w.pushed; stack = stack }))
          e walk

    -- A step from a walk is to a walk, at the same world.
    pub walk_step-IsWalk :
        (root : ContentId) (frame : Frame) (rest : List Frame) (w v : Walk) (t : S)
        → w.stack ≡ frame ∷ rest
        → IsWalk Refers root w
        → walk_step load_refs frame rest w s ≡ (ok v, t)
        → (t ≡ s) × IsWalk Refers root v
    walk_step-IsWalk root frame rest w v t e walk h =
        let (same, (refs, current, q, kept)) = walk_step-visit root frame rest w v t e walk h in
        (
          same,
          subst (IsWalk Refers root) q (
              visit-IsWalk Refers root w.ordered w.pushed frame rest
                (at_frame root frame rest w e walk) refs current (get_elem? refs frame.next) refl),
        )

    -- What a walk that ends has: each identifier that the root reaches, and no other, each once.
    abbrev IsClosure : ContentId → List ContentId → Type 0
    IsClosure root ids =
        ((x : ContentId) → (contains x ids ≡ true) ↔ Reaches Refers root x) × (distinct ids ≡ true)

    closed_end :
        (root : ContentId) (w : Walk)
        → IsWalk Refers root w
        → w.stack ≡ []
        → IsClosure root w.ordered
    unfolding contains
    closed_end root w walk e =
        (λ x. (λ h. walk.reached x (ground (arith, walk.covered x)), within x), walk.once)
      where
        empty : (x : ContentId) → contains x (frame_ids w.stack) ≡ false
        empty x = rw e refl

        within : (x : ContentId) → Reaches Refers root x → contains x w.ordered ≡ true
        within x here = ground (arith, walk.rooted, walk.covered root, empty root)
        within _ (onward {x = y} refs i child r k h) =
            let d = walk.done y (within y r) in
            let q : d.refs ≡ refs = cc (d.refers) in
            let h' : get_elem? d.refs i ≡ some child = rw q h in
            ground (arith, d.seen i child h', walk.covered child, empty child)

    pub walk_with-IsClosure :
        (root : ContentId) (rounds : ℕ) (ids : List ContentId) (t : S)
        → walk_with load_refs rounds root s ≡ (ok (some ids), t)
        → ((x : ContentId) → (contains x ids ≡ true) ↔ Reaches Refers root x)
          × (distinct ids ≡ true)
    walk_with-IsClosure root rounds ids t h =
        walk_with-end load_refs s (IsWalk Refers root) (IsClosure root) ids
          (λ frame rest w v u e walk k. walk_step-IsWalk root frame rest w v u e walk k)
          (closed_end root) root rounds t (IsWalk-start Refers root) h

-- The loader of `closure`, over a reader that changes nothing.
module _ (hex : HexCodec) {S : Type 0} (reader : ByteReader S) (s : S)
    (pure : (id : ContentId) → (reader.load_bytes id s).1 ≡ s) where
  pub closure_refs-IsSteady : IsSteady (closure_refs hex reader) s
  unfolding closure_refs resident_bytes resident_or
  closure_refs-IsSteady = record {
    pure = λ id is_root. unchanged id is_root;
    same = λ id is_root refs h. unrooted id is_root refs h;
  }
    where
      unchanged : (id : ContentId) (is_root : Bool) → (closure_refs hex reader id is_root s).1 ≡ s
      unchanged id is_root = elim (Result-cases (reader.load_bytes id s).0) [
        | inr (x, e) ↦ ground (arith, pure id)
        | inl (r, e) ↦ elim (Option-cases r) [
          | inl f ↦ ground (arith, pure id)
          | inr (bytes, f) ↦ ground (arith, pure id)
        ]
      ]

      unrooted :
          (id : ContentId) (is_root : Bool) (refs : List ContentId)
          → (closure_refs hex reader id is_root s).0 ≡ ok refs
          → (closure_refs hex reader id false s).0 ≡ ok refs
      unrooted id is_root refs h = elim (Result-cases (reader.load_bytes id s).0) [
        | inr (x, e) ↦ absurd (ground arith)
        | inl (r, e) ↦ elim (Option-cases r) [
          | inl f ↦ absurd (ground arith)
          | inr (bytes, f) ↦ ground arith
        ]
      ]

  -- Over a reader whose reads change nothing, the closure that a walk answers has exactly the identifiers that
  -- the root reaches over references, each once.
  pub closure-Reaches :
      (root : ContentId) (rounds : ℕ) (ids : List ContentId) (t : S)
      → closure hex reader rounds root s ≡ (ok (some ids), t)
      → ((x : ContentId)
          → (contains x ids ≡ true) ↔ Reaches (Refers (closure_refs hex reader) s) root x)
        × (distinct ids ≡ true)
  unfolding closure
  closure-Reaches root rounds ids t h =
      walk_with-IsClosure (closure_refs hex reader) s closure_refs-IsSteady root rounds ids t h
