-- ===== src/Server/Core/Closure.antt =====
-- Every request keeps the in-memory store closed.
use foldlab.Base.{ℕ, ◌≡◌, sym, ap, ◌∙◌, List, false}
use mathlib.Core.Path.{subst}
use foldlab.Node.{HexCodec}
use foldlab.Node.Checks.{All-map}
use foldlab.Backend.{lookup}
use foldlab.Store.{CasAddress}
use foldlab.Store.Memory.{World, world_reader, world_roots}
use foldlab.Store.Memory.Complete.{put-admits}
use foldlab.Store.Memory.Invariant.{IsClosed, put-IsClosed}
use foldlab.Server.Protocol.{
  CasServerPolicy, Principal, CasRequest, CasOutcome, upload_node, load_node, publish_root,
  read_root, query_presence, read_capabilities,
}
use foldlab.Server.Core.{serve, respond, serve_load, serve_root}
use foldlab.Server.Core.Uploads.{UploadStep, entered, joined, refused, upload_step}
use foldlab.Server.Core.Keeps.{InBytes, memory_serve, publish-nodes, presence-same}

module _ (hex : HexCodec) (address : CasAddress) where
  -- The closure is of the entries alone.
  IsClosed-nodes :
      (w v : World)
      → v.plane.nodes ≡ w.plane.nodes
      → IsClosed hex address w
      → IsClosed hex address v
  IsClosed-nodes w v q c = record {
    entry = λ id bytes h.
        let e = c.entry id bytes (sym (ap (lookup id) q) ∙ h) in
        record {
          node = e.node;
          verified = e.verified;
          resolved =
              All-map
                (λ ref r. record {
                  bytes = r.bytes;
                  node = r.node;
                  held = ap (lookup ref.id) q ∙ r.held;
                  verified = r.verified;
                  typed = r.typed;
                })
                e.node.refs e.resolved;
        };
  }

  module _ (policy : CasServerPolicy) (principal : Principal) (w : World)
      (c : IsClosed hex address w) where
    upload-IsClosed :
        (id : List ℕ) (bytes : List ℕ) {p : CasOutcome × World}
        → UploadStep hex address policy w id bytes p
        → IsClosed hex address p.1
    upload-IsClosed id bytes {p} (entered n u absent e) =
        subst (IsClosed hex address)
          (ap (λ t. t.1) (put-admits hex address false n w id u.placed absent)
            ∙ sym (ap (λ (t : CasOutcome × World). t.1) e))
          (put-IsClosed hex address false n w c)
    upload-IsClosed id bytes (joined n u held e) = rw e c
    upload-IsClosed id bytes (refused o e na nj) = rw e c

    -- Every request, whatever its outcome, keeps the in-memory store closed.
    pub serve-IsClosed :
        (request : CasRequest)
        → InBytes request
        → IsClosed hex address (memory_serve hex address policy principal request w).1
    unfolding serve respond serve_load serve_root world_reader world_roots
    serve-IsClosed (upload_node id bytes) all =
        upload-IsClosed id bytes (upload_step hex address policy w id bytes principal all)
    serve-IsClosed (load_node id) all = c
    serve-IsClosed (publish_root root closure) all =
        IsClosed-nodes w _ (publish-nodes hex address policy principal root closure w) c
    serve-IsClosed (query_presence keys) all =
        subst (IsClosed hex address) (sym (presence-same hex address policy principal keys w)) c
    serve-IsClosed read_capabilities all = c
    serve-IsClosed (read_root root) all = c
