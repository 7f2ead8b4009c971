-- ===== src/Graph/Rounds.antt =====
-- The walk of a closure ends: a bound on the rounds that it takes.
use foldlab.Base.{
  ℕ, zero, suc, ◌+◌, ◌-◌, ◌*◌, ◌<◌, ◌≤◌, ◌≡◌, ◌⊎◌, inl, inr, refl, ap, Bool, true, Option, none,
  some, List, [], ◌∷◌, ◌++◌, length, get_elem?, ok, err, Eff, Bool-cases, Result, Result-cases,
  text_eq_refl, ◌==◌, ◌&&◌, arith, if◌then◌else◌,
}
use foldlab.Node.{ContentId, CasError}
use foldlab.Backend.{contains}
use foldlab.Graph.{
  Frame, Walk, start_walk, visit, frame_refs, walk_step, walk_frames, walk_loop, walk_with,
}
use foldlab.Graph.Sets.{missing, missing-append, missing-less, missing-length}
use foldlab.Graph.Walks.{Reaches, Current, FrameIs, IsWalk, IsWalk-start}
use foldlab.Graph.Closure.{IsSteady, Refers, walk_step-visit, walk_step-IsWalk, at_frame}

get_elem?-length :
    {A : Type 0} (xs : List A) (i : ℕ) (x : A) → get_elem? xs i ≡ some x → i < length xs
get_elem?-length [] i x h = cc
get_elem?-length (y ∷ xs) zero x h = omega arith
get_elem?-length (y ∷ xs) (suc i) x h = omega (arith, get_elem?-length xs i x h)

times_less : (k a b : ℕ) → a + 1 ≤ b → k * a + k ≤ k * b
times_less k a b h = grind arith

times_least : (k a b : ℕ) → a ≤ b → k * a ≤ k * b
times_least k a b h = grind arith

-- Identifiers that hold every node, and a bound on the references of one.
pub record Bounds (Refers : ContentId → List ContentId → Type 0) (ids : List ContentId) (most : ℕ)
    : Type 0 where
  pub held : (x : ContentId) (refs : List ContentId) → Refers x refs → contains x ids ≡ true
  pub least : (x : ContentId) (refs : List ContentId) → Refers x refs → length refs ≤ most

module _ (ids : List ContentId) (most : ℕ) where
  -- The rounds that a frame can take yet, two for a reference that is not visited.
  frame_weight : ContentId → ℕ → Option (List ContentId) → ℕ
  frame_weight id next none = if contains id ids then 2 * most + 1 else 1
  frame_weight id next (some refs) = 2 * (length refs - next) + 1

  weight : List Frame → ℕ
  unfolding frame_weight
  weight [] = 0
  weight (frame ∷ stack) = frame_weight frame.id frame.next frame.refs + weight stack

  pub measure : Walk → ℕ
  unfolding weight
  measure w = weight w.stack + (2 * most + 1) * missing ids w.pushed

  measure-start : (root : ContentId) → measure (start_walk root) ≤ (2 * most + 1) * (length ids + 1)
  unfolding measure
  measure-start root =
      let k =
        times_least (2 * most + 1) (missing ids (root ∷ [])) (length ids)
          (missing-length ids (root ∷ [])) in
      elim (Bool-cases (contains root ids)) [
        | inl e ↦ rw e (grind (arith, k))
        | inr e ↦ rw e (grind (arith, k))
      ]

  module _ (Refers : ContentId → List ContentId → Type 0) (bounds : Bounds Refers ids most) where
    Current-weight :
        (pushed : List ContentId) (id : ContentId) (next : ℕ) (refs : Option (List ContentId))
        (found : List ContentId)
        → FrameIs Refers pushed id next refs
        → ((known : List ContentId) → refs ≡ some known → known ≡ found)
        → Current Refers pushed id next found
        → 2 * (length found - next) + 1 ≤ frame_weight id next refs
    unfolding frame_weight
    Current-weight pushed id next none found k same c =
        ground (arith, bounds.held id found c.refers, bounds.least id found c.refers)
    Current-weight pushed id next (some known) found k same c =
        let q : known ≡ found = same known refl in rw q (omega arith)

    visit-measure :
        (ordered pushed : List ContentId) (frame : Frame) (rest : List Frame)
        (refs : List ContentId)
        → 2 * (length refs - frame.next) + 1 ≤ frame_weight frame.id frame.next frame.refs
        → (next : Option ContentId) → get_elem? refs frame.next ≡ next
        → measure (
              visit frame refs rest
                (record { ordered = ordered; pushed = pushed; stack = frame ∷ rest })
                next)
            + 1
          ≤ measure (record { ordered = ordered; pushed = pushed; stack = frame ∷ rest })
    unfolding measure visit
    visit-measure ordered pushed frame rest refs h none e = omega arith
    visit-measure ordered pushed frame rest refs h (some child) e =
        let l = get_elem?-length refs frame.next child e in
        elim (Bool-cases (contains child pushed)) [
          | inl k ↦ rw k (omega arith)
          | inr k ↦ elim (Bool-cases (contains child ids)) [
            | inl i ↦
                rw (k, i)
                  (omega (
                    arith,
                    times_less (2 * most + 1) (missing ids (pushed ++ child ∷ []))
                        (missing ids pushed) (missing-less child ids pushed i k),
                  ))
            | inr i ↦
                rw (k, i)
                  (omega (
                    arith,
                    times_least (2 * most + 1) (missing ids (pushed ++ child ∷ []))
                        (missing ids pushed) (missing-append child ids pushed),
                  ))
          ]
        ]

module _ {S : Type 0} (load_refs : ContentId → Bool → Eff S CasError (List ContentId)) (s : S)
    (steady : IsSteady load_refs s) (ids : List ContentId) (most : ℕ)
    (bounds : Bounds (Refers load_refs s) ids most) where
  step-measure :
      (root : ContentId) (frame : Frame) (rest : List Frame) (w v : Walk) (t : S)
      → w.stack ≡ frame ∷ rest
      → IsWalk (Refers load_refs s) root w
      → walk_step load_refs frame rest w s ≡ (ok v, t)
      → measure ids most v + 1 ≤ measure ids most w
  step-measure root frame rest w v t e walk h =
      let (same, (refs, current, q, kept)) =
        walk_step-visit load_refs s steady root frame rest w v t e walk h in
      let at = at_frame load_refs s steady root frame rest w e walk in
      let less =
        visit-measure ids most (Refers load_refs s) bounds w.ordered w.pushed frame rest refs
          (Current-weight ids most (Refers load_refs s) bounds w.pushed frame.id frame.next
            frame.refs refs at.frames.0 kept current)
          (get_elem? refs frame.next) refl in
      omega (
        arith,
        less,
        ap (measure ids most) q,
        ap
            (λ stack.
              measure ids most (record { ordered = w.ordered; pushed = w.pushed; stack = stack }))
            e,
      )

  module _ (root : ContentId) where
    abbrev pub Fails : CasError → Type 0
    Fails x =
        (id : ContentId) × ((is_root : Bool) × (Reaches (Refers load_refs s) root id
            × ((load_refs id is_root s).0 ≡ err x)))

    -- The walk ends: with identifiers, or with the error of loading one that the root reaches.
    abbrev pub Ends : Result CasError (Option (List ContentId)) × S → Type 0
    Ends p =
        ((found : List ContentId) × (p ≡ (ok (some found), s)))
        ⊎ ((x : CasError) × ((p.0 ≡ err x) × Fails x))

    frame_refs-Fails :
        (id : ContentId) (is_root : Bool) (refs : Option (List ContentId)) (x : CasError)
        → Reaches (Refers load_refs s) root id
        → (frame_refs load_refs id is_root refs s).0 ≡ err x
        → Fails x
    unfolding frame_refs
    frame_refs-Fails id is_root none x r h = (id, (is_root, (r, h)))
    frame_refs-Fails id is_root (some refs) x r h = cc

    step-Fails :
        (frame : Frame) (rest : List Frame) (w : Walk) (x : CasError)
        → w.stack ≡ frame ∷ rest
        → IsWalk (Refers load_refs s) root w
        → (walk_step load_refs frame rest w s).0 ≡ err x
        → Fails x
    unfolding walk_step contains
    step-Fails frame rest w x e walk h =
        let at = at_frame load_refs s steady root frame rest w e walk in
        elim (Result-cases (frame_refs load_refs frame.id is_root frame.refs s).0) [
          | inl (refs, f) ↦ absurd (ground arith)
          | inr (y, f) ↦
              frame_refs-Fails frame.id is_root frame.refs x
                (at.reached frame.id (ground (arith, at.covered frame.id, text_eq_refl frame.id)))
                (ground arith)
        ]
      where
        is_root : Bool
        is_root = length w.ordered == 0 && length w.stack == 1

    frames-Ends :
        (continue : Walk → Eff S CasError (Option (List ContentId))) (w : Walk)
        → ((v : Walk)
            → IsWalk (Refers load_refs s) root v
            → measure ids most v + 1 ≤ measure ids most w
            → Ends (continue v s))
        → (stack : List Frame) → w.stack ≡ stack
        → IsWalk (Refers load_refs s) root w
        → Ends (walk_frames load_refs continue w stack s)
    unfolding walk_frames
    frames-Ends continue w loop [] e walk = inl (w.ordered, refl)
    frames-Ends continue w loop (frame ∷ rest) e walk =
        elim (Result-cases (walk_step load_refs frame rest w s).0) [
          | inr (x, f) ↦ inr (x, (ground arith, step-Fails frame rest w x e walk f))
          | inl (v, f) ↦
              let t : S = (walk_step load_refs frame rest w s).1 in
              let f' : walk_step load_refs frame rest w s ≡ (ok v, t) = ground arith in
              let (same, walk') =
                walk_step-IsWalk load_refs s steady root frame rest w v t e walk f' in
              let f'' : walk_step load_refs frame rest w s ≡ (ok v, s) = ground arith in
              rw f'' (loop v walk' (step-measure root frame rest w v t e walk f'))
        ]

    loop-Ends :
        (rounds : ℕ) (w : Walk)
        → IsWalk (Refers load_refs s) root w
        → measure ids most w + 1 ≤ rounds
        → Ends (walk_loop load_refs rounds w s)
    unfolding walk_loop
    loop-Ends zero w walk h = absurd (omega arith)
    loop-Ends (suc rounds) w walk h =
        frames-Ends (walk_loop load_refs rounds) w (λ v k less. loop-Ends rounds v k (omega arith))
          w.stack refl walk

    pub walk_with-Ends :
        (rounds : ℕ)
        → (2 * most + 1) * (length ids + 1) < rounds
        → Ends (walk_with load_refs rounds root s)
    unfolding walk_with
    walk_with-Ends rounds h =
        loop-Ends rounds (start_walk root) (IsWalk-start (Refers load_refs s) root)
          (omega (arith, measure-start ids most root))
