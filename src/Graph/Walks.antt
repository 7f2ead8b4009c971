-- ===== src/Graph/Walks.antt =====
-- What a walk that ends has collected: each identifier that the root reaches, once.
use foldlab.Base.{
  ℕ, ◌+◌, ◌<◌, ◌≡◌, inl, inr, refl, true, false, ◌||◌, Option, none, some, List, [], ◌∷◌, ◌++◌, map,
  get_elem?, ◌==◌, All, Bool-cases, text_eq, text_eq_iff, text_eq_refl, arith,
}
use mathlib.Core.Path.{subst}
use foldlab.Node.{ContentId}
use foldlab.Node.Checks.{All-map}
use foldlab.Backend.{contains}
use foldlab.Graph.{Frame, Walk, new_frame, start_walk, visit}
use foldlab.Graph.Sets.{contains-append, distinct, distinct-append, get_elem?-bound}

abbrev pub frame_ids : List Frame → List ContentId
frame_ids stack = map (λ (frame : Frame). frame.id) stack

module _ (Refers : ContentId → List ContentId → Type 0) where
  -- What the root reaches over references.
  pub data Reaches (root : ContentId) : ContentId → Type 0 where
    here : Reaches root root
    onward :
        {x : ContentId} (refs : List ContentId) (i : ℕ) (child : ContentId)
        → Reaches root x
        → Refers x refs
        → get_elem? refs i ≡ some child
        → Reaches root child

  -- The references of `x` below a bound are pushed.
  abbrev pub Seen : List ContentId → ℕ → List ContentId → Type 0
  Seen pushed bound refs =
      (i : ℕ) (child : ContentId)
      → i < bound
      → get_elem? refs i ≡ some child
      → contains child pushed ≡ true

  pub record Current (pushed : List ContentId) (id : ContentId) (next : ℕ) (refs : List ContentId)
      : Type 0 where
    pub refers : Refers id refs
    pub seen : Seen pushed next refs

  abbrev pub FrameIs : List ContentId → ContentId → ℕ → Option (List ContentId) → Type 0
  FrameIs pushed id next none = next ≡ 0
  FrameIs pushed id next (some refs) = Current pushed id next refs

  abbrev pub IsFrame : List ContentId → Frame → Type 0
  IsFrame pushed frame = FrameIs pushed frame.id frame.next frame.refs

  pub record Done (pushed : List ContentId) (id : ContentId) : Type 0 where
    pub refs : List ContentId
    pub refers : Refers id refs
    pub seen :
        (i : ℕ) (child : ContentId) → get_elem? refs i ≡ some child → contains child pushed ≡ true

  pub record IsWalk (root : ContentId) (w : Walk) : Type 0 where
    pub rooted : contains root w.pushed ≡ true
    pub covered :
        (x : ContentId)
        → contains x w.pushed ≡ (contains x w.ordered || contains x (frame_ids w.stack))
    pub apart :
        (x : ContentId) → contains x (frame_ids w.stack) ≡ true → contains x w.ordered ≡ false
    pub once : distinct w.ordered ≡ true
    pub stacked : distinct (frame_ids w.stack) ≡ true
    pub reached : (x : ContentId) → contains x w.pushed ≡ true → Reaches root x
    pub done : (x : ContentId) → contains x w.ordered ≡ true → Done w.pushed x
    pub frames : All (IsFrame w.pushed) w.stack

  -- More identifiers pushed.
  grown :
      (x y : ContentId) (xs : List ContentId)
      → contains y xs ≡ true
      → contains y (xs ++ x ∷ []) ≡ true
  grown x y xs h = ground (arith, contains-append x y xs)

  Done-grown : (x y : ContentId) (xs : List ContentId) → Done xs y → Done (xs ++ x ∷ []) y
  Done-grown x y xs d = record {
    refs = d.refs;
    refers = d.refers;
    seen = λ i child e. grown x child xs (d.seen i child e);
  }

  FrameIs-grown :
      (x id : ContentId) (xs : List ContentId) (next : ℕ) (refs : Option (List ContentId))
      → FrameIs xs id next refs
      → FrameIs (xs ++ x ∷ []) id next refs
  FrameIs-grown x id xs next none h = h
  FrameIs-grown x id xs next (some refs) h = record {
    refers = h.refers;
    seen = λ i child less e. grown x child xs (h.seen i child less e);
  }

  Seen-next :
      (pushed refs : List ContentId) (next : ℕ) (child : ContentId)
      → Seen pushed next refs
      → get_elem? refs next ≡ some child
      → contains child pushed ≡ true
      → Seen pushed (next + 1) refs
  Seen-next pushed refs next child seen e h i other less k = elim (Bool-cases (i == next)) [
    | inl q ↦
        let j : i ≡ next = ground arith in
        let o : get_elem? refs next ≡ some other = rw (← j) k in
        let c : child ≡ other = cc in rw (← c) h
    | inr q ↦ seen i other (ground arith) k
  ]

  pub IsWalk-start : (root : ContentId) → IsWalk root (start_walk root)
  unfolding contains distinct
  IsWalk-start root = record {
    rooted = ground (arith, text_eq_refl root);
    covered = λ x. ground arith;
    apart = λ x h. refl;
    once = refl;
    stacked = refl;
    reached = λ x h. only x (ground arith);
    done = λ x h. absurd (ground arith);
    frames = (refl, tt);
  }
    where
      only : (x : ContentId) → text_eq root x ≡ true → Reaches root x
      only x h = subst (Reaches root) ((text_eq_iff root x).0 h) here

  module _ (root : ContentId) (ordered pushed : List ContentId) (frame : Frame) (rest : List Frame)
      (walk : IsWalk root (record { ordered = ordered; pushed = pushed; stack = frame ∷ rest }))
      (refs : List ContentId) (current : Current pushed frame.id frame.next refs) where
    abbrev moved : Frame
    moved = record frame { refs = some refs; next = frame.next + 1 }

    frame_reached : Reaches root frame.id
    unfolding contains
    frame_reached =
        walk.reached frame.id (ground (arith, walk.covered frame.id, text_eq_refl frame.id))

    visit-known :
        (child : ContentId)
        → get_elem? refs frame.next ≡ some child
        → contains child pushed ≡ true
        → IsWalk root (record { ordered = ordered; pushed = pushed; stack = moved ∷ rest })
    visit-known child e h = record {
      rooted = walk.rooted;
      covered = walk.covered;
      apart = walk.apart;
      once = walk.once;
      stacked = walk.stacked;
      reached = walk.reached;
      done = walk.done;
      frames = (
        record {
          refers = current.refers;
          seen = Seen-next pushed refs frame.next child current.seen e h;
        },
        walk.frames.1,
      );
    }

    visit-new :
        (child : ContentId)
        → get_elem? refs frame.next ≡ some child
        → contains child pushed ≡ false
        → IsWalk root (record {
          ordered = ordered;
          pushed = pushed ++ child ∷ [];
          stack = new_frame child ∷ moved ∷ rest;
        })
    unfolding contains distinct
    visit-new child e h = record {
      rooted = grown child root pushed walk.rooted;
      covered = λ x. ground (arith, walk.covered x, contains-append child x pushed);
      apart = λ x k. fresh x k;
      once = walk.once;
      stacked = ground (arith, walk.covered child, walk.stacked);
      reached = λ x k. reach x k;
      done = λ x k. Done-grown child x pushed (walk.done x k);
      frames = (
        refl,
        (
          record {
            refers = current.refers;
            seen =
                Seen-next (pushed ++ child ∷ []) refs frame.next child
                  (λ i other less k. grown child other pushed (current.seen i other less k)) e
                  (ground (arith, contains-append child child pushed, text_eq_refl child));
          },
          All-map (λ f k. FrameIs-grown child f.id pushed f.next f.refs k) rest walk.frames.1,
        ),
      );
    }
      where
        fresh :
            (x : ContentId)
            → contains x (child ∷ frame.id ∷ frame_ids rest) ≡ true
            → contains x ordered ≡ false
        fresh x k = elim (Bool-cases (text_eq child x)) [
          | inl s ↦
              let q : child ≡ x = (text_eq_iff child x).0 s in
              rw (← q) (ground (arith, walk.covered child))
          | inr s ↦ walk.apart x (ground arith)
        ]

        reach : (x : ContentId) → contains x (pushed ++ child ∷ []) ≡ true → Reaches root x
        reach x k = elim (Bool-cases (text_eq child x)) [
          | inl s ↦
              subst (Reaches root) ((text_eq_iff child x).0 s)
                (onward refs frame.next child frame_reached current.refers e)
          | inr s ↦ walk.reached x (ground (arith, contains-append child x pushed))
        ]

    visit-end :
        get_elem? refs frame.next ≡ none
        → IsWalk root (record { ordered = ordered ++ frame.id ∷ []; pushed = pushed; stack = rest })
    unfolding contains distinct
    visit-end e = record {
      rooted = walk.rooted;
      covered = λ x. ground (arith, walk.covered x, contains-append frame.id x ordered);
      apart = λ x k. fresh x k;
      once =
          distinct-append frame.id ordered walk.once
            (walk.apart frame.id (ground (arith, text_eq_refl frame.id)));
      stacked = ground (arith, walk.stacked);
      reached = walk.reached;
      done = λ x k. finished x k;
      frames = walk.frames.1;
    }
      where
        fresh :
            (x : ContentId)
            → contains x (frame_ids rest) ≡ true
            → contains x (ordered ++ frame.id ∷ []) ≡ false
        fresh x k = elim (Bool-cases (text_eq frame.id x)) [
          | inl s ↦
              let q : frame.id ≡ x = (text_eq_iff frame.id x).0 s in
              let k' : contains frame.id (frame_ids rest) ≡ true = rw q k in
              absurd (ground (arith, walk.stacked))
          | inr s ↦ ground (arith, walk.apart x, contains-append frame.id x ordered)
        ]

        all_seen :
            (i : ℕ) (child : ContentId)
            → get_elem? refs i ≡ some child
            → contains child pushed ≡ true
        all_seen i child k = current.seen i child (get_elem?-bound refs frame.next i child e k) k

        finished : (x : ContentId) → contains x (ordered ++ frame.id ∷ []) ≡ true → Done pushed x
        finished x k = elim (Bool-cases (text_eq frame.id x)) [
          | inl s ↦
              subst (Done pushed) ((text_eq_iff frame.id x).0 s)
                (record { refs = refs; refers = current.refers; seen = all_seen })
          | inr s ↦ walk.done x (ground (arith, contains-append frame.id x ordered))
        ]

    pub visit-IsWalk :
        (next : Option ContentId)
        → get_elem? refs frame.next ≡ next
        → IsWalk root (
            visit frame refs rest
              (record { ordered = ordered; pushed = pushed; stack = frame ∷ rest })
              next)
    unfolding visit
    visit-IsWalk none e = visit-end e
    visit-IsWalk (some child) e = elim (Bool-cases (contains child pushed)) [
      | inl h ↦ rw h (visit-known child e h)
      | inr h ↦ rw h (visit-new child e h)
    ]
