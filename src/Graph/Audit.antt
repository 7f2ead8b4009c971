-- ===== src/Graph/Audit.antt =====
-- library/effects/src/cas/Graph.ts: verifyWith, the audit of a graph.
pub mod Checked
pub mod Loads
pub mod Visits
pub mod Faithful
use foldlab.Base.{
  ℕ, zero, suc, ◌+◌, Bool, true, false, Option, none, some, List, [], ◌∷◌, ◌++◌, length, get_elem?,
  ◌==◌, not, ◌&&◌, text_eq, if◌then◌else◌, Eff, succeed, fail, lift, ◌>>=◌,
}
use foldlab.Node.{ContentId, HexCodec, CasNodeInput, CasReference, CasError, wrong_kind_reference}
use foldlab.Backend.{ByteReader, contains}
use foldlab.Store.{CasAddress, verify_node_bytes}
use foldlab.Graph.{resident_bytes}

pub record AuditFrame : Type 0 where
  pub id : ContentId
  pub node : Option CasNodeInput
  pub next : ℕ

-- An edge of the graph that the audit builds: from a node, over a declared kind.
pub record Edge : Type 0 where
  pub from : ContentId
  pub to : ContentId
  pub expected_tag : ℕ

pub record Audit : Type 0 where
  pub pushed : List ContentId
  pub verified : List (ContentId × CasNodeInput)
  pub edges : List Edge
  pub stack : List AuditFrame

abbrev pub start_audit : ContentId → Audit
start_audit root = record {
  pushed = root ∷ [];
  verified = [];
  edges = [];
  stack = record { id = root; node = none; next = 0 } ∷ [];
}

-- `verified.get`.
pub cached : ContentId → List (ContentId × CasNodeInput) → Option CasNodeInput
cached id [] = none
cached id ((k, node) ∷ rest) = if text_eq k id then some node else cached id rest

-- The child becomes a frame of its own, unless it was one.
pub push_child : CasReference → CasNodeInput → Audit → Audit
push_child ref child a = if contains ref.id a.pushed then a else record a {
  pushed = a.pushed ++ ref.id ∷ [];
  stack = record { id = ref.id; node = some child; next = 0 } ∷ a.stack;
}

module _ (hex : HexCodec) (address : CasAddress) {S : Type 0} (reader : ByteReader S) where
  load_fresh :
      ContentId → Bool → Option CasNodeInput → Audit → Eff S CasError (CasNodeInput × Audit)
  unfolding resident_bytes
  load_fresh id is_root (some node) a = succeed (node, a)
  load_fresh id is_root none a = do
    bytes ← resident_bytes reader id is_root
    node ← lift (verify_node_bytes hex address id bytes)
    succeed (node, record a { verified = (id, node) ∷ a.verified })

  pub load_verified : ContentId → Bool → Audit → Eff S CasError (CasNodeInput × Audit)
  unfolding load_fresh cached
  load_verified id is_root a = load_fresh id is_root (cached id a.verified) a

  pub frame_node :
      ContentId → Option CasNodeInput → Bool → Audit → Eff S CasError (CasNodeInput × Audit)
  unfolding load_verified
  frame_node id none is_root a = load_verified id is_root a
  frame_node id (some node) is_root a = succeed (node, a)

  -- The child of a reference, once it is verified.
  check_child :
      AuditFrame
      → CasNodeInput
      → List AuditFrame
      → CasReference
      → CasNodeInput × Audit
      → Eff S CasError Audit
  unfolding push_child
  check_child frame node rest ref (child, a) =
      if not (child.kind.tag == ref.expected_tag)
      then fail (wrong_kind_reference ref.id ref.expected_tag child.kind.tag)
      else succeed (
          push_child ref child (record a {
            edges =
                a.edges
                ++ record { from = frame.id; to = ref.id; expected_tag = ref.expected_tag } ∷ [];
            stack = record frame { node = some node; next = frame.next + 1 } ∷ rest;
          }))

  visit_ref :
      AuditFrame
      → CasNodeInput
      → List AuditFrame
      → Option CasReference
      → Audit
      → Eff S CasError Audit
  unfolding check_child load_verified
  visit_ref frame node rest none a = succeed (record a { stack = rest })
  visit_ref frame node rest (some ref) a = do
    child ← load_verified ref.id false a
    check_child frame node rest ref child

  pub audit_step : ContentId → AuditFrame → List AuditFrame → Audit → Eff S CasError Audit
  unfolding frame_node visit_ref
  audit_step root frame rest a = do
    found ← frame_node frame.id frame.node (text_eq frame.id root && length a.stack == 1) a
    visit_ref frame found.0 rest (get_elem? found.0.refs frame.next) found.1

  -- The loop, by the rounds left; `none` is a lack of rounds.
  audit_frames :
      ContentId
      → (Audit → Eff S CasError (Option Audit))
      → Audit
      → List AuditFrame
      → Eff S CasError (Option Audit)
  unfolding audit_step
  audit_frames root continue a [] = succeed (some a)
  audit_frames root continue a (frame ∷ rest) = do
    next ← audit_step root frame rest a
    continue next

  audit_loop : ContentId → ℕ → Audit → Eff S CasError (Option Audit)
  unfolding audit_frames
  audit_loop root zero a = succeed none
  audit_loop root (suc rounds) a = audit_frames root (audit_loop root rounds) a a.stack

  -- The post-order of a graph from a node is that of the `effect` package.
  module _ (dfs_post_order : List Edge → ContentId → List ContentId) where
    walked : ContentId → Option Audit → Option (List ContentId)
    walked root none = none
    walked root (some a) = some (dfs_post_order a.edges root)

    unfoldable pub verify_with : ℕ → ContentId → Eff S CasError (Option (List ContentId))
    unfolding audit_loop walked
    verify_with rounds root = do
      complete ← audit_loop root rounds (start_audit root)
      succeed (walked root complete)
