-- ===== src/Graph/Audit/Faithful.antt =====
-- An audit that succeeds has found the reader faithful at every node that the root reaches.
use foldlab.Base.{
  ℕ, zero, suc, ◌≡◌, inl, inr, refl, sym, ap, ◌∙◌, Bool, true, false, Option, none, some, List, [],
  ◌∷◌, ◌++◌, map, length, get_elem?, ◌==◌, Result, ok, Eff, succeed, >>=-eq-ok, Bool-cases,
  Option-cases, text_eq, text_eq_refl, arith, ◌&&◌,
}
use mathlib.Core.Path.{subst}
use foldlab.Node.{ContentId, CasError, HexCodec, CasNodeInput, CasReference}
use foldlab.Backend.{contains, ByteReader, BackendFailure}
use foldlab.Store.{CasAddress, verify_node_bytes}
use foldlab.Graph.Walks.{Reaches, here, onward}
use foldlab.Graph.Audit.{
  AuditFrame, Audit, Edge, cached, load_verified, frame_node, check_child, visit_ref, audit_step,
  audit_frames, audit_loop, start_audit, verify_with, walked,
}
use foldlab.Graph.Audit.Checked.{Serves, IsFaithful, ServedRefs, Checked, Finished, IsAudit}
use foldlab.Graph.Audit.Loads.{Loaded, load_verified-Loaded, frame_node-Loaded}
use foldlab.Graph.Audit.Visits.{end-IsAudit, push_child-IsAudit}

picked_ref :
    (refs : List CasReference) (i : ℕ) (child : ContentId)
    → get_elem? (map (λ (ref : CasReference). ref.id) refs) i ≡ some child
    → (ref : CasReference) × ((get_elem? refs i ≡ some ref) × (ref.id ≡ child))
picked_ref [] i child h = cc
picked_ref (ref ∷ refs) zero child h = (ref, (refl, cc))
picked_ref (ref ∷ refs) (suc i) child h = picked_ref refs i child h

module _ (hex : HexCodec) (address : CasAddress) {S : Type 0} (reader : ByteReader S) (s : S)
    (pure : (id : ContentId) → (reader.load_bytes id s).1 ≡ s) (root : ContentId) where
  abbrev Good : Audit → Type 0
  Good = IsAudit hex address reader s root

  check_child-IsAudit :
      (a : Audit) (pushed : List ContentId) (frame : AuditFrame) (rest : List AuditFrame)
      (node : CasNodeInput) (b v : Audit) (t : S)
      → Good
          (record { pushed = pushed; verified = a.verified; edges = a.edges; stack = frame ∷ rest })
      → Serves hex address reader s frame.id node
      → Checked hex address reader s pushed frame.next node
      → a.pushed ≡ pushed
      → (ref : CasReference) (child : CasNodeInput) → get_elem? node.refs frame.next ≡ some ref
      → Loaded hex address reader s pure ref.id a child b s
      → check_child hex address reader frame node rest ref (child, b) s ≡ (ok v, t)
      → (t ≡ s) × Good v
  unfolding check_child
  check_child-IsAudit a pushed frame rest node b v t good serves checked p ref child e l h =
      elim (Bool-cases (child.kind.tag == ref.expected_tag)) [
        | inr k ↦ absurd (ground arith)
        | inl k ↦ (
          ground arith,
          subst Good (ground (arith, l.only)) (
              push_child-IsAudit hex address reader s root pushed frame rest l.verified
                (a.edges
                  ++ record { from = frame.id; to = ref.id; expected_tag = ref.expected_tag } ∷ [])
                good.rooted l.cache good.split good.frames.1 node serves checked ref child e
                l.serves (ground arith)),
        )
      ]

  visit_ref-IsAudit :
      (a : Audit) (pushed : List ContentId) (frame : AuditFrame) (rest : List AuditFrame)
      (node : CasNodeInput) (v : Audit) (t : S)
      → Good
          (record { pushed = pushed; verified = a.verified; edges = a.edges; stack = frame ∷ rest })
      → Serves hex address reader s frame.id node
      → Checked hex address reader s pushed frame.next node
      → a.pushed ≡ pushed
      → (ref : Option CasReference) → get_elem? node.refs frame.next ≡ ref
      → visit_ref hex address reader frame node rest ref a s ≡ (ok v, t)
      → (t ≡ s) × Good v
  unfolding visit_ref
  visit_ref-IsAudit a pushed frame rest node v t good serves checked p none e h = (
    cc,
    subst Good (ground arith) (
        end-IsAudit hex address reader s root pushed frame rest a.verified a.edges good.rooted
          good.cache good.split good.frames.1 node serves checked e),
  )
  visit_ref-IsAudit a pushed frame rest node v t good serves checked p (some ref) e h =
      let (found, u, k, l) =
        >>=-eq-ok (check_child hex address reader frame node rest ref)
          (load_verified hex address reader ref.id false a) s h in
      let loaded =
        load_verified-Loaded hex address reader s pure ref.id false a found.1 found.0 u good.cache
          k in
      check_child-IsAudit a pushed frame rest node found.1 v t good serves checked p ref found.0 e
        (record {
          still = refl;
          serves = loaded.serves;
          verified = loaded.verified;
          cache = loaded.cache;
          only = loaded.only;
        })
        (ap (check_child hex address reader frame node rest ref found) (sym loaded.still) ∙ l)

  audit_step-IsAudit :
      (frame : AuditFrame) (rest : List AuditFrame) (a v : Audit) (t : S)
      → a.stack ≡ frame ∷ rest
      → Good a
      → audit_step hex address reader root frame rest a s ≡ (ok v, t)
      → (t ≡ s) × Good v
  unfolding audit_step
  audit_step-IsAudit frame rest a v t e good h =
      let (found, u, k, l) =
        >>=-eq-ok next (frame_node hex address reader frame.id frame.node is_root a) s h in
      let (loaded, checked) =
        frame_node-Loaded hex address reader s pure a.pushed frame.id frame.next is_root frame.node
          a found.1 found.0 u good.cache at.frames.0 k in
      visit_ref-IsAudit found.1 a.pushed frame rest found.0 v t
        (subst
          (λ (b : Audit). Good (record {
            pushed = a.pushed;
            verified = b.verified;
            edges = b.edges;
            stack = frame ∷ rest;
          }))
          (sym loaded.only)
          (record {
            rooted = at.rooted;
            cache = loaded.cache;
            split = at.split;
            frames = at.frames;
          }))
        loaded.serves checked (ap (λ (b : Audit). b.pushed) loaded.only)
        (get_elem? found.0.refs frame.next) refl (ap (next found) (sym loaded.still) ∙ l)
    where
      is_root : Bool
      is_root = text_eq frame.id root && length a.stack == 1

      next : CasNodeInput × Audit → Eff S CasError Audit
      next found =
          visit_ref hex address reader frame found.0 rest (get_elem? found.0.refs frame.next)
            found.1

      at : Good (record {
        pushed = a.pushed;
        verified = a.verified;
        edges = a.edges;
        stack = frame ∷ rest;
      })
      at =
          subst
            (λ (stack : List AuditFrame).
              Good (record {
                pushed = a.pushed;
                verified = a.verified;
                edges = a.edges;
                stack = stack;
              }))
            e good

  -- What the end of an audit gives of its root.
  abbrev Faithful : Type 0
  Faithful =
      (x : ContentId)
      → Reaches (ServedRefs hex address reader s) root x
      → IsFaithful hex address reader s x

  Serves-one :
      (id : ContentId) (n m : CasNodeInput)
      → Serves hex address reader s id n
      → Serves hex address reader s id m
      → n ≡ m
  Serves-one id n m k l =
      let q : k.bytes ≡ l.bytes = served_one k.served l.served in
      ok_one (sym k.verified ∙ ap (verify_node_bytes hex address id) q ∙ l.verified)
    where
      served_one :
          {r : Result BackendFailure (Option (List ℕ))} {b c : List ℕ}
          → r ≡ ok (some b)
          → r ≡ ok (some c)
          → b ≡ c
      served_one e f = cc

      ok_one : {n m : CasNodeInput} → ◌≡◌ {A = Result CasError CasNodeInput} (ok n) (ok m) → n ≡ m
      ok_one e = cc

  finished_end : (a : Audit) → Good a → a.stack ≡ [] → Faithful
  unfolding contains
  finished_end a good e x r =
      let f = done x (within x r) in
      record { node = f.node; serves = f.serves; refs = λ i ref k. (f.checked i ref k).1 }
    where
      done : (x : ContentId) → contains x a.pushed ≡ true → Finished hex address reader s a.pushed x
      done x h = elim (good.split x h) [ inl k ↦ absurd (ground arith) | inr f ↦ f ]

      within :
          (x : ContentId)
          → Reaches (ServedRefs hex address reader s) root x
          → contains x a.pushed ≡ true
      within _ here = good.rooted
      within _ (onward {x = y} ids i child r (n, (serves, q)) k) =
          let f = done y (within y r) in
          let same : f.node ≡ n = Serves-one y f.node n f.serves serves in
          let k' : get_elem? (map (λ (ref : CasReference). ref.id) f.node.refs) i ≡ some child =
            rw (same, q) k in
          let (ref, (l, c)) = picked_ref f.node.refs i child k' in
          subst (λ z. contains z a.pushed ≡ true) c (f.checked i ref l).0

  frames-Faithful :
      (continue : Audit → Eff S CasError (Option Audit)) (b : Audit) (t : S)
      → ((v : Audit) → Good v → continue v s ≡ (ok (some b), t) → Faithful)
      → (a : Audit) (stack : List AuditFrame) → a.stack ≡ stack
      → Good a
      → audit_frames hex address reader root continue a stack s ≡ (ok (some b), t)
      → Faithful
  unfolding audit_frames
  frames-Faithful continue b t loop a [] e good h = finished_end a good e
  frames-Faithful continue b t loop a (frame ∷ rest) e good h =
      let (v, u, k, l) = >>=-eq-ok continue (audit_step hex address reader root frame rest a) s h in
      let (same, good') = audit_step-IsAudit frame rest a v u e good k in
      loop v good' (ap (continue v) (sym same) ∙ l)

  loop-Faithful :
      (rounds : ℕ) (a b : Audit) (t : S)
      → Good a
      → audit_loop hex address reader root rounds a s ≡ (ok (some b), t)
      → Faithful
  unfolding audit_loop
  loop-Faithful zero a b t good h = cc
  loop-Faithful (suc rounds) a b t good h =
      frames-Faithful (audit_loop hex address reader root rounds) b t
        (λ v k e. loop-Faithful rounds v b t k e) a a.stack refl good h

  start-IsAudit : Good (start_audit root)
  unfolding contains cached
  start-IsAudit = record {
    rooted = ground (arith, text_eq_refl root);
    cache = λ id n e. absurd (cc e);
    split = λ x k. inl (ground arith);
    frames = (refl, tt);
  }

  -- Over a reader whose reads change nothing: where the audit of a root answers, then the reader is faithful
  -- at every node that the root reaches. It serves bytes there that verify under the address, and so it does
  -- for every reference of the node, at the kind that the reference declares.
  pub verify_with-IsFaithful :
      (dfs_post_order : List Edge → ContentId → List ContentId) (rounds : ℕ) (ids : List ContentId)
      (t : S)
      → verify_with hex address reader dfs_post_order rounds root s ≡ (ok (some ids), t)
      → (x : ContentId) → Reaches (ServedRefs hex address reader s) root x
      → IsFaithful hex address reader s x
  unfolding verify_with walked
  verify_with-IsFaithful dfs_post_order rounds ids t h =
      let (complete, u, k, l) =
        >>=-eq-ok (λ c. succeed (walked hex address reader dfs_post_order root c))
          (audit_loop hex address reader root rounds (start_audit root)) s h in
      elim (Option-cases complete) [
        | inl e ↦ absurd (ground arith)
        | inr (a, e) ↦
            loop-Faithful rounds (start_audit root) a u start-IsAudit
              (k ∙ ap (λ (c : Option Audit). (ok c, u)) e)
      ]
