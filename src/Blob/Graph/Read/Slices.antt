-- ===== src/Blob/Graph/Read/Slices.antt =====
-- A walk of selected bytes reads the slice of what the whole walk reads, where loads change nothing.
use foldlab.Base.{
  ℕ, zero, suc, ◌+◌, ◌-◌, ◌*◌, ◌^◌, ◌≡◌, ◌≤◌, ◌<◌, refl, sym, ap, ◌∙◌, min, max, true, false, none,
  some, List, [], ◌∷◌, ◌++◌, append-nil, append_assoc, length-append, length, slice, Eff, ok, arith,
  Bool-cases, Result-cases, inl, inr, ◌==◌, leb, if◌then◌else◌,
}
use foldlab.Base.Slices.{slice-join, slice_behind, slice_empty, slice-min}
use foldlab.Node.{ContentId}
use foldlab.Blob.{chunk_size, ManifestContent, require_recipe_one}
use foldlab.Blob.Geometry.{lengths, pow2_below-largest, lengths_before, lengths_to}
use foldlab.Blob.Graph.{CasStoreShape, BlobError, load_chunk, load_parent}
use foldlab.Blob.Graph.Read.{
  ReadPlan, SelectedRange, walk, walk_halves, walk_parent, walk_leaf, outside, cut_chunk,
  concat_parts,
}
use foldlab.Blob.Graph.Read.Lengths.{total_length, walk-lengths}
use foldlab.Blob.Graph.Read.Pure.{load_chunk_pure, load_parent_pure, walk_pure, LoadsPure}

pub concat-append :
    (xs ys : List (List ℕ)) → concat_parts (xs ++ ys) ≡ concat_parts xs ++ concat_parts ys
unfolding concat_parts
concat-append [] ys = refl
concat-append (x ∷ xs) ys =
    ap (λ t. x ++ t) (concat-append xs ys)
    ∙ sym (append_assoc x (concat_parts xs) (concat_parts ys))

pub length-concat : (xs : List (List ℕ)) → length (concat_parts xs) ≡ total_length xs
unfolding concat_parts
length-concat [] = refl
length-concat (x ∷ xs) = omega (arith, length-append x (concat_parts xs), length-concat xs)

-- The bytes that the selection takes of a subtree at `base`.
abbrev pub Selects : SelectedRange → ℕ → List (List ℕ) → List (List ℕ) → Type 0
Selects sel base parts cut =
    concat_parts cut
    ≡ slice (concat_parts parts) (sel.offset - base * chunk_size) (sel.end - base * chunk_size)

cut_chunk-slice :
    (sel : SelectedRange) (base : ℕ) (chunk : List ℕ)
    → concat_parts (cut_chunk base chunk (some sel))
      ≡ slice chunk (sel.offset - base * chunk_size) (sel.end - base * chunk_size)
unfolding cut_chunk concat_parts
cut_chunk-slice sel base chunk =
    cut_slice chunk (max sel.offset start - start) (min sel.end (start + length chunk) - start)
    ∙ ap (λ (n : ℕ). slice chunk n (min sel.end (start + length chunk) - start))
        (from_eq sel.offset start)
    ∙ ap (λ (n : ℕ). slice chunk (sel.offset - start) n) (to_eq sel.end start (length chunk))
    ∙ slice-min chunk (sel.offset - start) (sel.end - start)
  where
    start : ℕ
    start = base * chunk_size

    from_eq : (o t : ℕ) → max o t - t ≡ o - t
    from_eq o t = omega arith

    to_eq : (e t n : ℕ) → min e (t + n) - t ≡ min (e - t) n
    to_eq e t n = omega arith

    cut_slice :
        (c : List ℕ) (from to : ℕ)
        → concat_parts (if from == to then [] else slice c from to ∷ []) ≡ slice c from to
    cut_slice c from to = elim (Bool-cases (from == to)) [
      | inl e ↦ rw e (sym (slice_empty c from to (ground arith)))
      | inr e ↦ rw e (append-nil (slice c from to))
    ]

module _ {S : Type 0} (store : CasStoreShape S) (pure : LoadsPure store) (plan : ReadPlan)
    (accepted : ManifestContent) (geometry : require_recipe_one plan.content ≡ ok accepted)
    (sel : SelectedRange) (s : S) where
  -- Two cuts of neighbours, the second behind the first, are a cut of both.
  joined :
      (base split : ℕ) (left right c d : List (List ℕ))
      → length (concat_parts left) ≡ split * chunk_size
      → Selects sel base left c
      → Selects sel (base + split) right d
      → Selects sel base (left ++ right) (c ++ d)
  joined base split left right c d l cs ds =
      concat-append c d
      ∙ ap (λ t. t ++ concat_parts d) cs
      ∙ ap (λ t. slice (concat_parts left) from to ++ t) (ds ∙ shift)
      ∙ sym (slice-join (concat_parts left) (concat_parts right) from to)
      ∙ ap (λ t. slice t from to) (sym (concat-append left right))
    where
      from : ℕ
      from = sel.offset - base * chunk_size

      to : ℕ
      to = sel.end - base * chunk_size

      behind :
          (o : ℕ)
          → o - (base + split) * chunk_size ≡ o - base * chunk_size - length (concat_parts left)
      behind o = omega arith

      shift :
          slice
            (concat_parts right)
            (sel.offset - (base + split) * chunk_size)
            (sel.end - (base + split) * chunk_size)
          ≡ slice
              (concat_parts right)
              (from - length (concat_parts left))
              (to - length (concat_parts left))
      shift = rw (behind sel.offset, behind sel.end)

  -- What a whole walk reads from a place, a selected walk reads the slice of.
  abbrev Cuts :
      (ContentId → ℕ → ℕ → Eff S BlobError (List (List ℕ)))
      → ContentId
      → ℕ
      → ℕ
      → List (List ℕ)
      → Type 0
  Cuts walk id base count parts =
      (cut : List (List ℕ)) × (walk id base count s ≡ (ok cut, s)) × Selects sel base parts cut

  unselected : (base count : ℕ) → outside plan base count none ≡ false
  unfolding outside
  unselected base count = refl

  whole_chunk : (base : ℕ) (chunk : List ℕ) → cut_chunk base chunk none ≡ chunk ∷ []
  unfolding cut_chunk
  whole_chunk base chunk = refl

  single : (chunk : List ℕ) → chunk ≡ concat_parts (chunk ∷ [])
  unfolding concat_parts
  single chunk = sym (append-nil chunk)

  -- A subtree outside the selection has none of its bytes.
  outside-slice :
      (rounds : ℕ) (id : ContentId) (base count : ℕ) (parts : List (List ℕ))
      → 1 ≤ count
      → base + count ≤ plan.content.leaf_count
      → walk store rounds plan none id base count s ≡ (ok parts, s)
      → outside plan base count (some sel) ≡ true
      → Selects sel base parts []
  unfolding outside concat_parts
  outside-slice rounds id base count parts one below h o =
      let n = walk-lengths store plan rounds id base count s s parts one h in
      let b = lengths_before plan.content accepted geometry base (omega arith) in
      let e = lengths_to plan.content accepted geometry (base + count) below in
      let l = length-concat parts in
      elim (Bool-cases (leb sel.end (base * chunk_size))) [
        | inl k ↦ sym (slice_empty (concat_parts parts) _ _ (ground arith))
        | inr k ↦ sym (slice_behind (concat_parts parts) _ _ (ground arith))
      ]

  halves-slice :
      (whole chosen : ContentId → ℕ → ℕ → Eff S BlobError (List (List ℕ)))
      → ((id : ContentId) (base count : ℕ) (t : S) → (whole id base count t).1 ≡ t)
      → ((id : ContentId) (base count : ℕ) (parts : List (List ℕ))
          → 1 ≤ count
          → whole id base count s ≡ (ok parts, s)
          → lengths plan.content base + total_length parts ≡ lengths plan.content (base + count))
      → ((id : ContentId) (base count : ℕ) (parts : List (List ℕ))
          → 1 ≤ count
          → base + count ≤ plan.content.leaf_count
          → whole id base count s ≡ (ok parts, s)
          → Cuts chosen id base count parts)
      → (pair : ContentId × ContentId) (base count split : ℕ) (parts : List (List ℕ)) → 1 ≤ split
      → split < count
      → base + count ≤ plan.content.leaf_count
      → walk_halves store whole pair base count (some split) s ≡ (ok parts, s)
      → (cut : List (List ℕ)) × (walk_halves store chosen pair base count (some split) s
          ≡ (ok cut, s))
        × Selects sel base parts cut
  unfolding walk_halves
  halves-slice whole chosen same len k pair base count split parts one less below h =
      elim (Result-cases (whole pair.0 base split s).0) [
        | inr (x, e) ↦ absurd (ground arith)
        | inl (left, e) ↦ elim (Result-cases (whole pair.1 (base + split) (count - split) s).0) [
          | inr (x, f) ↦ absurd (ground (arith, same pair.0 base split s))
          | inl (right, f) ↦
              let e' : whole pair.0 base split s ≡ (ok left, s) =
                ground (arith, same pair.0 base split s) in
              let f' : whole pair.1 (base + split) (count - split) s ≡ (ok right, s) =
                ground (arith, same pair.1 (base + split) (count - split) s) in
              let (c, ce, cs) = k pair.0 base split left one (omega arith) e' in
              let (d, de, ds) =
                k pair.1 (base + split) (count - split) right (omega arith) (omega arith) f' in
              let q : left ++ right ≡ parts = ground (arith, same pair.0 base split s) in
              let l = len pair.0 base split left one e' in
              let b = lengths_before plan.content accepted geometry base (omega arith) in
              let b' = lengths_before plan.content accepted geometry (base + split) (omega arith) in
              (
                c ++ d,
                rw (ce, de) refl,
                joined base split left right c d (omega (arith, length-concat left)) cs ds
                    ∙ ap
                        (λ t.
                          slice (concat_parts t) (sel.offset - base * chunk_size)
                            (sel.end - base * chunk_size))
                        q,
              )
        ]
      ]

  pub walk-slice :
      (rounds : ℕ) (id : ContentId) (base count : ℕ) (parts : List (List ℕ))
      → 1 ≤ count
      → base + count ≤ plan.content.leaf_count
      → walk store rounds plan none id base count s ≡ (ok parts, s)
      → Cuts (walk store rounds plan (some sel)) id base count parts
  unfolding walk walk_parent walk_leaf
  walk-slice zero id base count parts one below h = cc
  walk-slice (suc rounds) id base count parts one below h =
      elim (Bool-cases (outside plan base count (some sel))) [
        | inl o ↦ ([], rw o refl, outside-slice (suc rounds) id base count parts one below h o)
        | inr o ↦ elim (Bool-cases (count == 1)) [
          | inl e ↦ elim (Result-cases (load_chunk store plan.content id base s).0) [
            | inr (x, f) ↦ absurd (ground (arith, unselected base count))
            | inl (chunk, f) ↦
                let q : chunk ∷ [] ≡ parts =
                  ground (arith, unselected base count, whole_chunk base chunk) in
                let f' : load_chunk store plan.content id base s ≡ (ok chunk, s) =
                  ground (arith, load_chunk_pure store pure plan.content id base s) in
                (
                  cut_chunk base chunk (some sel),
                  rw (o, e, f') refl,
                  cut_chunk-slice sel base chunk
                      ∙ ap
                          (λ t.
                            slice t (sel.offset - base * chunk_size) (sel.end - base * chunk_size))
                          (single chunk)
                      ∙ ap
                          (λ t.
                            slice (concat_parts t) (sel.offset - base * chunk_size)
                              (sel.end - base * chunk_size))
                          q,
                )
          ]
          | inr e ↦ elim (Result-cases (load_parent store id s).0) [
            | inr (x, f) ↦ absurd (ground (arith, unselected base count))
            | inl (pair, f) ↦
                let f' : load_parent store id s ≡ (ok pair, s) =
                  ground (arith, load_parent_pure store pure id s) in
                let (k, r, less, above) = pow2_below-largest count (ground arith) in
                let (cut, ce, cs) =
                  halves-slice (walk store rounds plan none) (walk store rounds plan (some sel))
                    (walk_pure store pure rounds plan none)
                    (λ i b c ps o' h'. walk-lengths store plan rounds i b c s s ps o' h')
                    (walk-slice rounds) pair base count (2 ^ k) parts (omega arith) less below
                    (ground (arith, unselected base count)) in
                (cut, rw (o, e, f', r) ce, cs)
          ]
        ]
      ]
