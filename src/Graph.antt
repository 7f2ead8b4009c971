-- ===== src/Graph.antt =====
-- library/effects/src/cas/Graph.ts: the closure of a root over the read seam, and its audit.
pub mod Sets
pub mod Walks
pub mod Closure
pub mod Order
pub mod Rounds
pub mod Resident
pub mod Audit
use foldlab.Base.{
  ℕ, zero, suc, ◌+◌, Bool, true, false, Option, none, some, List, [], ◌∷◌, ◌++◌, map, length,
  get_elem?, ◌==◌, not, ◌&&◌, text_eq, if◌then◌else◌, Result, ok, err, Eff, succeed, fail, lift,
  ◌>>=◌, map_error,
}
use foldlab.Node.{
  ContentId, HexCodec, CasNodeInput, CasReference, CasError, content_not_found, dangling_reference,
  non_canonical_bytes, wrong_kind_reference,
}
use foldlab.Codec.{decode_cas_node}
use foldlab.Backend.{ByteReader, contains}
use foldlab.Store.{CasAddress, backend_failure, verify_node_bytes}

resident_or : ContentId → Bool → Option (List ℕ) → Result CasError (List ℕ)
resident_or id is_root none = err (if is_root then content_not_found id else dangling_reference id)
resident_or id is_root (some bytes) = ok bytes

pub resident_bytes : {S : Type 0} → ByteReader S → ContentId → Bool → Eff S CasError (List ℕ)
unfolding resident_or
resident_bytes reader id is_root = do
  resident ← map_error (backend_failure id) (reader.load_bytes id)
  lift (resident_or id is_root resident)

-- A frame of the walk: its references once they are loaded, and the place of the next one.
pub record Frame : Type 0 where
  pub id : ContentId
  pub refs : Option (List ContentId)
  pub next : ℕ

-- The variables of `walkWith`. The top of the stack comes first.
pub record Walk : Type 0 where
  pub ordered : List ContentId
  pub pushed : List ContentId
  pub stack : List Frame

abbrev pub new_frame : ContentId → Frame
new_frame id = record { id = id; refs = none; next = 0 }

abbrev pub start_walk : ContentId → Walk
start_walk root = record { ordered = []; pushed = root ∷ []; stack = new_frame root ∷ [] }

-- The rest of an iteration, once the references of the top frame are there: the next child of the frame,
-- or its end.
pub visit : Frame → List ContentId → List Frame → Walk → Option ContentId → Walk
visit frame refs rest w none = record w { ordered = w.ordered ++ frame.id ∷ []; stack = rest }
visit frame refs rest w (some child) =
    let advanced : Frame = record frame { refs = some refs; next = frame.next + 1 } in
    if contains child w.pushed
    then record w { stack = advanced ∷ rest }
    else record w { pushed = w.pushed ++ child ∷ []; stack = new_frame child ∷ advanced ∷ rest }

module _ {S : Type 0} (load_refs : ContentId → Bool → Eff S CasError (List ContentId)) where
  frame_refs : ContentId → Bool → Option (List ContentId) → Eff S CasError (List ContentId)
  frame_refs id is_root none = load_refs id is_root
  frame_refs id is_root (some refs) = succeed refs

  pub walk_step : Frame → List Frame → Walk → Eff S CasError Walk
  unfolding frame_refs visit
  walk_step frame rest w = do
    refs ← frame_refs frame.id (length w.ordered == 0 && length w.stack == 1) frame.refs
    succeed (visit frame refs rest w (get_elem? refs frame.next))

  -- The loop, by the rounds left; `none` is a lack of rounds.
  walk_frames :
      (Walk → Eff S CasError (Option (List ContentId)))
      → Walk
      → List Frame
      → Eff S CasError (Option (List ContentId))
  unfolding walk_step
  walk_frames continue w [] = succeed (some w.ordered)
  walk_frames continue w (frame ∷ rest) = do next ← walk_step frame rest w; continue next

  walk_loop : ℕ → Walk → Eff S CasError (Option (List ContentId))
  unfolding walk_frames
  walk_loop zero w = succeed none
  walk_loop (suc rounds) w = walk_frames (walk_loop rounds) w w.stack

  unfoldable pub walk_with : ℕ → ContentId → Eff S CasError (Option (List ContentId))
  unfolding walk_loop
  walk_with rounds root = walk_loop rounds (start_walk root)

reference_ids : ContentId → Option CasNodeInput → Result CasError (List ContentId)
reference_ids id none = err (non_canonical_bytes id)
reference_ids id (some node) = ok (map (λ (ref : CasReference). ref.id) node.refs)

module _ (hex : HexCodec) {S : Type 0} (reader : ByteReader S) where
  -- How `closure` loads the references of a node.
  unfoldable pub closure_refs : ContentId → Bool → Eff S CasError (List ContentId)
  unfolding resident_bytes reference_ids
  closure_refs id is_root = do
    bytes ← resident_bytes reader id is_root
    lift (reference_ids id (decode_cas_node hex bytes))

  unfoldable pub closure : ℕ → ContentId → Eff S CasError (Option (List ContentId))
  unfolding closure_refs walk_with
  closure = walk_with closure_refs
