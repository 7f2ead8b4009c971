-- ===== src/Server/Core/Roots.antt =====
-- Root publication over the in-memory backend.
use foldlab.Base.{
  ℕ, ◌≡◌, refl, sym, ap, ◌∙◌, some, List, [], ◌∷◌, ◌++◌, map, false, true, All, All-append, arith,
  ◌⊎◌, inl, inr, Option-cases, Bool-cases, text_eq_refl, Bool, if◌then◌else◌,
}
use mathlib.Core.Path.{subst}
use foldlab.Node.{ContentId, HexCodec}
use foldlab.Node.Checks.{All-map}
use foldlab.Backend.{lookup, status_of, contains}
use foldlab.Store.{CasAddress}
use foldlab.Store.Memory.{World, world_reader, world_roots}
use foldlab.Server.Protocol.{
  CasServerPolicy, Principal, CasRequest, CasOutcome, upload_node, load_node, publish_root,
  read_root, query_presence, read_capabilities, admission_refused, admitted, already_admitted,
  backend_unavailable, batch_budget_exceeded, capabilities, closure_unverified, digest_mismatch,
  node_absent, node_budget_exceeded, node_bytes, presence, published, root_absent, root_published,
}
use foldlab.Server.Core.{
  serve, respond, serve_load, serve_root, serve_publish, publish_held, some_absent,
}
use foldlab.Server.Core.Uploads.{upload_step}
use foldlab.Server.Core.Keeps.{
  InBytes, memory_serve, upload-keeps, upload-roots, publish-nodes, presence-same,
}

-- Something is resident under the identifier.
abbrev pub Held : World → ContentId → Type 0
Held w id = (bytes : List ℕ) × (lookup id w.plane.nodes ≡ some bytes)

-- Every published root is resident.
abbrev pub Rooted : World → Type 0
Rooted w = All (Held w) w.plane.roots

All-Held :
    (w : World) (ids : List ContentId)
    → some_absent (map (λ id. status_of (lookup id w.plane.nodes)) ids) ≡ false
    → All (Held w) ids
unfolding some_absent status_of
All-Held w [] h = tt
All-Held w (id ∷ ids) h = elim (Option-cases (lookup id w.plane.nodes)) [
  | inl e ↦ absurd (ground arith)
  | inr (b, e) ↦ ((b, e), All-Held w ids (ground arith))
]

contains-append : (id : ContentId) (ids : List ContentId) → contains id (ids ++ id ∷ []) ≡ true
unfolding contains
contains-append id [] = ground (arith, text_eq_refl id)
contains-append id (k ∷ ids) = ground (arith, contains-append id ids)

contains-added :
    (id : ContentId) (ids : List ContentId)
    → contains id (if contains id ids then ids else ids ++ id ∷ []) ≡ true
contains-added id ids = elim (Bool-cases (contains id ids)) [
  | inl e ↦ ground arith
  | inr e ↦ ground (arith, contains-append id ids)
]

published_or_not : (o : CasOutcome) → (o ≡ published) ⊎ (o ≡ published → ⊥)
published_or_not published = inl refl
published_or_not (admission_refused t) = inr (λ h. cc)
published_or_not admitted = inr (λ h. cc)
published_or_not already_admitted = inr (λ h. cc)
published_or_not backend_unavailable = inr (λ h. cc)
published_or_not batch_budget_exceeded = inr (λ h. cc)
published_or_not (capabilities a b) = inr (λ h. cc)
published_or_not closure_unverified = inr (λ h. cc)
published_or_not digest_mismatch = inr (λ h. cc)
published_or_not node_absent = inr (λ h. cc)
published_or_not node_budget_exceeded = inr (λ h. cc)
published_or_not (node_bytes b) = inr (λ h. cc)
published_or_not (presence s) = inr (λ h. cc)
published_or_not root_absent = inr (λ h. cc)
published_or_not root_published = inr (λ h. cc)

module _ (hex : HexCodec) (address : CasAddress) (policy : CasServerPolicy) (principal : Principal)
    (w : World) where
  listed :
      (root : ContentId) (v : World)
      → contains root v.plane.roots ≡ true
      → memory_serve hex address policy principal (read_root root) v ≡ (root_published, v)
  unfolding serve respond serve_root world_roots
  listed root v k = ground arith

  module _ (root : ContentId) (closure : List ContentId) where
    abbrev pub after_publish : CasOutcome × World
    after_publish = memory_serve hex address policy principal (publish_root root closure) w

    -- A publication either changes nothing or comes with a resident root and closure.
    publish-Held-All : after_publish.0 ≡ published → All (Held w) (root ∷ closure)
    unfolding serve respond serve_publish publish_held world_reader world_roots
    publish-Held-All h =
        elim (Bool-cases
          (some_absent (map (λ id. status_of (lookup id w.plane.nodes)) (root ∷ closure)))) [
            | inl e ↦ absurd (ground arith)
            | inr e ↦ All-Held w (root ∷ closure) e
          ]

    publish_roots :
        after_publish.0 ≡ published
        → after_publish.1.plane.roots
          ≡ (if contains root w.plane.roots then w.plane.roots else w.plane.roots ++ root ∷ [])
    unfolding serve respond serve_publish publish_held world_reader world_roots
    publish_roots h = ground arith

    publish_else : (after_publish.0 ≡ published → ⊥) → after_publish.1 ≡ w
    unfolding serve respond serve_publish publish_held world_reader world_roots
    publish_else h = ground arith

    -- A root is published only with its whole declared closure resident, and a read of it then answers
    -- that it is published.
    pub publish-served :
        after_publish.0 ≡ published
        → All (Held w) (root ∷ closure)
          × (memory_serve hex address policy principal (read_root root) after_publish.1
              ≡ (root_published, after_publish.1))
    publish-served h = (
      publish-Held-All h,
      listed root after_publish.1
          (ap (contains root) (publish_roots h) ∙ contains-added root w.plane.roots),
    )

    Rooted-publish : Rooted w → Rooted after_publish.1
    Rooted-publish r = elim (published_or_not after_publish.0) [
      | inl h ↦ subst (All (Held after_publish.1)) (sym (publish_roots h)) (
          grown (contains root w.plane.roots) (All-map (λ id k. moved id k) w.plane.roots r)
            (moved root (publish-Held-All h).0))
      | inr h ↦ subst Rooted (sym (publish_else h)) r
    ]
      where
        moved : (id : ContentId) → Held w id → Held after_publish.1 id
        moved id (b, k) =
            (b, ap (lookup id) (publish-nodes hex address policy principal root closure w) ∙ k)

        grown :
            (b : Bool)
            → All (Held after_publish.1) w.plane.roots
            → Held after_publish.1 root
            → All (Held after_publish.1) (if b then w.plane.roots else w.plane.roots ++ root ∷ [])
        grown true a k = a
        grown false a k = All-append (Held after_publish.1) w.plane.roots (root ∷ []) a (k, tt)

  Rooted-upload :
      (id : ContentId) (bytes : List ℕ)
      → InBytes (upload_node id bytes)
      → Rooted w
      → Rooted (memory_serve hex address policy principal (upload_node id bytes) w).1
  Rooted-upload id bytes all r =
      subst (All (Held (memory_serve hex address policy principal (upload_node id bytes) w).1))
        (sym (
          upload-roots hex address policy principal w id bytes
            (upload_step hex address policy w id bytes principal all)))
        (All-map (λ k (b, h). (b, upload-keeps hex address policy principal w id bytes all k b h))
          w.plane.roots r)

  -- Every request, whatever its outcome, keeps every published root resident.
  pub serve-Rooted :
      (request : CasRequest)
      → InBytes request
      → Rooted w
      → Rooted (memory_serve hex address policy principal request w).1
  unfolding serve respond serve_load serve_root world_reader world_roots
  serve-Rooted (upload_node id bytes) all r = Rooted-upload id bytes all r
  serve-Rooted (load_node id) all r = r
  serve-Rooted (publish_root root closure) all r = Rooted-publish root closure r
  serve-Rooted (query_presence keys) all r =
      subst Rooted (sym (presence-same hex address policy principal keys w)) r
  serve-Rooted read_capabilities all r = r
  serve-Rooted (read_root root) all r = r
