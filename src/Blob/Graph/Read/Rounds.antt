-- ===== src/Blob/Graph/Read/Rounds.antt =====
-- The rounds that a read is given are enough.
use foldlab.Base.{
  ℕ, zero, suc, ◌+◌, ◌-◌, ◌^◌, ◌≡◌, ◌≢◌, ◌≤◌, ◌<◌, refl, ap, ok, err, Result, Option, none, some,
  List, arith, Eff, continue, map_err, Bool-cases, Result-cases, inl, inr, ◌==◌, ltb,
}
use foldlab.Node.{ContentId, CasNodeInput, CasError}
use foldlab.Wire.{read_uint32}
use foldlab.Blob.{
  ManifestContent, GeometryError, unsupported_recipe as unknown_recipe, wrong_leaf_count,
  require_recipe_one, decode_manifest_payload,
}
use foldlab.Blob.Geometry.{pow2_below-largest, require_recipe_one-some}
use foldlab.Blob.Graph.{
  CasStoreShape, BlobError, cas_error, out_of_rounds, load_chunk, load_parent, load_declared,
  check_chunk, leaf_chunk, check_parent, parent_refs,
}
use foldlab.Blob.Graph.Read.{
  ReadPlan, SelectedRange, walk, walk_halves, walk_parent, walk_leaf, outside, join_parts,
  load_plan, plan_of, check_manifest, manifest_root, resolve, geometry, stream_plan, get_plan, get,
}

-- An answer or an error of the source.
abbrev InRounds : {A : Type 0} → Result BlobError A → Type 0
InRounds r = r ≢ err out_of_rounds

cas-InRounds : {A : Type 0} (r : Result CasError A) → InRounds (map_err cas_error r)
cas-InRounds (ok a) h = cc
cas-InRounds (err x) h = cc

same :
    {A B : Type 0} (x : BlobError)
    → ◌≡◌ {A = Result BlobError B} (err x) (err out_of_rounds)
    → ◌≡◌ {A = Result BlobError A} (err x) (err out_of_rounds)
same x h = ap (λ e. err e) (err_one x h)
  where
    err_one :
        {B : Type 0} (x : BlobError)
        → ◌≡◌ {A = Result BlobError B} (err x) (err out_of_rounds)
        → x ≡ out_of_rounds
    err_one x h = cc

module _ {S : Type 0} where
  continue-InRounds :
      {A B : Type 0} (f : A → Eff S BlobError B) (p : Result BlobError A × S)
      → InRounds p.0
      → ((a : A) (t : S) → p ≡ (ok a, t) → InRounds (f a t).0)
      → InRounds (continue p.0 f p.1).0
  continue-InRounds f (ok a, t) k l = l a t refl
  continue-InRounds f (err x, t) k l = λ h. k (same x h)

module _ {S : Type 0} (store : CasStoreShape S) where
  check_chunk-InRounds :
      (id : ContentId) (declared : ℕ) (chunk : CasNodeInput) (s : S)
      → InRounds (check_chunk store id declared chunk s).0
  unfolding check_chunk
  check_chunk-InRounds id declared chunk s h = ground arith

  load_declared-InRounds :
      (plan : ManifestContent) (id : ContentId) (index : ℕ) (leaf : CasNodeInput)
      (chunk : Option ContentId) (s : S)
      → InRounds (load_declared store plan id index leaf chunk s).0
  unfolding load_declared
  load_declared-InRounds plan id index leaf none s h = cc
  load_declared-InRounds plan id index leaf (some chunk_id) s h =
      elim (Result-cases (store.load chunk_id s).0) [
        | inl (chunk, e) ↦ ground (
          arith,
          check_chunk-InRounds chunk_id (read_uint32 leaf.payload 4) chunk
              (store.load chunk_id s).1,
        )
        | inr (x, e) ↦ ground arith
      ]

  load_chunk-InRounds :
      (plan : ManifestContent) (id : ContentId) (index : ℕ) (s : S)
      → InRounds (load_chunk store plan id index s).0
  unfolding load_chunk
  load_chunk-InRounds plan id index s =
      continue-InRounds _ _ (cas-InRounds (store.load id s).0)
        (λ leaf t q. load_declared-InRounds plan id index leaf (leaf_chunk store leaf.refs) t)

  load_parent-InRounds : (id : ContentId) (s : S) → InRounds (load_parent store id s).0
  unfolding load_parent
  load_parent-InRounds id s =
      continue-InRounds _ _ (cas-InRounds (store.load id s).0)
        (λ parent t q. shape parent (parent_refs store parent.refs) t)
    where
      shape :
          (parent : CasNodeInput) (pair : Option (ContentId × ContentId)) (t : S)
          → InRounds (check_parent store id parent pair t).0
      shape parent none t h = cc
      shape parent (some pair) t h = ground arith

  halves-InRounds :
      (walk : ContentId → ℕ → ℕ → Eff S BlobError (List (List ℕ))) (pair : ContentId × ContentId)
      (base count split : ℕ) (s : S)
      → 1 ≤ split
      → split < count
      → ((id : ContentId) (b c : ℕ) (t : S) → 1 ≤ c → c < count → InRounds (walk id b c t).0)
      → InRounds (walk_halves store walk pair base count (some split) s).0
  unfolding walk_halves
  halves-InRounds walk pair base count split s one less k =
      continue-InRounds _ _ (k pair.0 base split s one less) (λ left t q.
        continue-InRounds _ _
          (k pair.1 (base + split) (count - split) t (omega arith) (omega arith))
          (λ right u q' h. cc))

  walk-InRounds :
      (rounds : ℕ) (plan : ReadPlan) (selected : Option SelectedRange) (id : ContentId)
      (base count : ℕ) (s : S)
      → 1 ≤ count
      → count ≤ rounds
      → InRounds (walk store rounds plan selected id base count s).0
  unfolding walk walk_leaf walk_parent
  walk-InRounds zero plan selected id base count s one h = absurd (omega arith)
  walk-InRounds (suc rounds) plan selected id base count s one h =
      elim (Bool-cases (outside plan base count selected)) [
        | inl o ↦ rw o (λ k. cc)
        | inr o ↦ elim (Bool-cases (count == 1)) [
          | inl e ↦
              rw (o, e)
                (continue-InRounds _ _ (load_chunk-InRounds plan.content id base s)
                  (λ chunk t q k. cc))
          | inr e ↦
              let (k, r, less, above) = pow2_below-largest count (ground arith) in
              rw (o, e, r)
                (continue-InRounds _ _ (load_parent-InRounds id s) (λ pair t q.
                  halves-InRounds (walk store rounds plan selected) pair base count (2 ^ k) t
                    (omega arith) less
                    (λ i b c u o' l. walk-InRounds rounds plan selected i b c u o' (omega arith))))
        ]
      ]

  plan_of-InRounds :
      (id : ContentId) (payload : List ℕ) (root : ContentId) (content : Option ManifestContent)
      → InRounds (plan_of id payload root content)
  unfolding plan_of
  plan_of-InRounds id payload root (some content) h = cc
  plan_of-InRounds id payload root none h = ground arith

  check_manifest-InRounds :
      (id : ContentId) (node : CasNodeInput) (root : Option ContentId)
      → InRounds (check_manifest id node root)
  unfolding check_manifest
  check_manifest-InRounds id node none h = cc
  check_manifest-InRounds id node (some root) h =
      ground (arith, plan_of-InRounds id node.payload root (decode_manifest_payload node.payload))

  geometry-InRounds :
      (plan : ReadPlan) (r : Result GeometryError ManifestContent) → InRounds (geometry plan r)
  unfolding geometry
  geometry-InRounds plan (ok content) h = cc
  geometry-InRounds plan (err (unknown_recipe n)) h = cc
  geometry-InRounds plan (err (wrong_leaf_count a b)) h = cc

  resolve-InRounds : (ref : ContentId) (s : S) → InRounds (resolve store ref s).0
  unfolding resolve load_plan
  resolve-InRounds ref s =
      continue-InRounds _ _
        (continue-InRounds _ _ (cas-InRounds (store.load ref s).0)
          (λ node t q. check_manifest-InRounds ref node (manifest_root node.refs)))
        (λ plan t q. geometry-InRounds plan (require_recipe_one plan.content))

  geometry-some :
      (plan resolved : ReadPlan) (r : Result GeometryError ManifestContent)
      → require_recipe_one plan.content ≡ r
      → geometry plan r ≡ ok resolved
      → 1 ≤ resolved.content.leaf_count
  unfolding geometry
  geometry-some plan resolved (ok content) e h = omega (
    arith,
    require_recipe_one-some plan.content content e,
    ap (λ (r : Result BlobError ReadPlan). leaves_of r) h,
  )
    where
      leaves_of : Result BlobError ReadPlan → ℕ
      leaves_of (ok p) = p.content.leaf_count
      leaves_of (err x) = 0
  geometry-some plan resolved (err (unknown_recipe n)) e h = cc
  geometry-some plan resolved (err (wrong_leaf_count a b)) e h = cc

  resolve-some :
      (ref : ContentId) (plan : ReadPlan) (s t : S)
      → resolve store ref s ≡ (ok plan, t)
      → 1 ≤ plan.content.leaf_count
  unfolding resolve
  resolve-some ref plan s t h = elim (Result-cases (load_plan store ref s).0) [
    | inr (x, e) ↦ absurd (ground arith)
    | inl (loaded, e) ↦
        geometry-some loaded plan (require_recipe_one loaded.content) refl (ground arith)
  ]

  join-InRounds : (parts : List (List ℕ)) (total : ℕ) → InRounds (join_parts parts total)
  unfolding join_parts
  join-InRounds parts total h = ground arith

  -- Over any store, a get of any reference ends with bytes or with an error of the source code: the walk of the tree
  -- ends within as many rounds as the manifest counts leaves, whatever graph the store serves.
  pub get-InRounds : (ref : ContentId) (s : S) → (get store ref s).0 ≢ err out_of_rounds
  unfolding get get_plan stream_plan
  get-InRounds ref s = continue-InRounds _ _ (resolve-InRounds ref s) (λ plan t q.
      elim (Bool-cases (ltb 0x7fffffff plan.content.total_bytes)) [
        | inl e ↦ rw e (λ h. cc)
        | inr e ↦ rw e (
            continue-InRounds _ _
              (walk-InRounds plan.content.leaf_count plan none plan.tree_root 0
                plan.content.leaf_count t (resolve-some ref plan s t q) (omega arith))
              (λ parts u q'. join-InRounds parts plan.content.total_bytes))
      ])
