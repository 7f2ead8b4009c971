-- ===== src/Server/Core/Keeps.antt =====
-- What every request keeps, over the in-memory backend: the closure of the store, and that the published
-- roots are resident.

use foldlab.Base.{
  ℕ, ◌≡◌, ap, sym, ◌∙◌, refl, some, List, arith, false, ◌⊎◌, inl, inr, All, text_eq_iff,
  text_eq_refl,
}
use foldlab.Node.{ContentId, IsByte, HexCodec}
use foldlab.Backend.{lookup}
use foldlab.Store.{CasAddress}
use foldlab.Store.Memory.{World, world_reader, world_writer, world_roots}
use foldlab.Store.Memory.Laws.{lookup-written}
use foldlab.Server.Protocol.{
  CasServerPolicy, Principal, CasRequest, CasOutcome, upload_node, load_node, publish_root,
  read_root, query_presence, read_capabilities, admitted, already_admitted, node_bytes,
}
use foldlab.Server.Core.{
  serve, respond, serve_load, load_outcome, serve_presence, serve_publish, publish_held,
}
use foldlab.Server.Core.Uploads.{UploadStep, entered, joined, refused, upload_step}

-- The bytes of an upload, which are those of an HTTP body, are bytes.
abbrev pub InBytes : CasRequest → Type 0
InBytes (upload_node id bytes) = All IsByte bytes
InBytes (load_node id) = Unit
InBytes (publish_root root closure) = Unit
InBytes (query_presence keys) = Unit
InBytes read_capabilities = Unit
InBytes (read_root root) = Unit

module _ (hex : HexCodec) (address : CasAddress) (policy : CasServerPolicy)
    (principal : Principal) where
  abbrev pub memory_serve : CasRequest → World → CasOutcome × World
  memory_serve = serve hex address world_reader world_writer policy world_roots principal

  load_held_bytes :
      (id : ContentId) (w : World) (bytes : List ℕ)
      → lookup id w.plane.nodes ≡ some bytes
      → memory_serve (load_node id) w ≡ (node_bytes bytes, w)
  unfolding serve respond serve_load load_outcome world_reader
  load_held_bytes id w bytes h = ground arith

  module _ (w : World) (id : ContentId) (bytes : List ℕ) where
    held_step :
        {p : CasOutcome × World}
        → UploadStep hex address policy w id bytes p
        → (p.0 ≡ admitted) ⊎ (p.0 ≡ already_admitted)
        → lookup id p.1.plane.nodes ≡ some bytes
    held_step (entered n u absent e) h = rw e (
        ground
          (arith, lookup-written hex address false n w id id absent, text_eq_refl id, u.encoded))
    held_step (joined n u held e) h = rw e held
    held_step (refused o e na nj) (inl h) =
        absurd (na (ap (λ (t : CasOutcome × World). t.0) (sym e) ∙ h))
    held_step (refused o e na nj) (inr h) =
        absurd (nj (ap (λ (t : CasOutcome × World). t.0) (sym e) ∙ h))

    -- After an upload that is admitted, or that was admitted before, a load of its identifier serves the
    -- uploaded bytes and changes nothing.
    pub load-upload :
        All IsByte bytes
        → ((memory_serve (upload_node id bytes) w).0 ≡ admitted)
          ⊎ ((memory_serve (upload_node id bytes) w).0 ≡ already_admitted)
        → memory_serve (load_node id) (memory_serve (upload_node id bytes) w).1
          ≡ (node_bytes bytes, (memory_serve (upload_node id bytes) w).1)
    load-upload all h =
        load_held_bytes id (memory_serve (upload_node id bytes) w).1 bytes
          (held_step (upload_step hex address policy w id bytes principal all) h)

    keeps_step :
        (k : ContentId) (b : List ℕ)
        → lookup k w.plane.nodes ≡ some b
        → {p : CasOutcome × World} → UploadStep hex address policy w id bytes p
        → (lookup k p.1.plane.nodes ≡ some b) × (p.1.plane.roots ≡ w.plane.roots)
    keeps_step k b h (entered n u absent e) =
        rw e
          (ground (arith, lookup-written hex address false n w id k absent, text_eq_iff id k), refl)
    keeps_step k b h (joined n u held e) = rw e (h, refl)
    keeps_step k b h (refused o e na nj) = rw e (h, refl)

    pub upload-roots :
        {p : CasOutcome × World}
        → UploadStep hex address policy w id bytes p
        → p.1.plane.roots ≡ w.plane.roots
    upload-roots (entered n u absent e) = rw e refl
    upload-roots (joined n u held e) = rw e refl
    upload-roots (refused o e na nj) = rw e refl

    pub upload-keeps :
        All IsByte bytes
        → (k : ContentId) (b : List ℕ) → lookup k w.plane.nodes ≡ some b
        → lookup k (memory_serve (upload_node id bytes) w).1.plane.nodes ≡ some b
    upload-keeps all k b h =
        (keeps_step k b h (upload_step hex address policy w id bytes principal all)).0

  pub publish-nodes :
      (root : ContentId) (closure : List ContentId) (w : World)
      → (memory_serve (publish_root root closure) w).1.plane.nodes ≡ w.plane.nodes
  unfolding serve respond serve_publish publish_held world_reader world_roots
  publish-nodes root closure w = ground arith

  pub presence-same :
      (keys : List ContentId) (w : World) → (memory_serve (query_presence keys) w).1 ≡ w
  unfolding serve respond serve_presence world_reader
  presence-same keys w = ground arith
