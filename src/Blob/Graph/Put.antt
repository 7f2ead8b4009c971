-- ===== src/Blob/Graph/Put.antt =====
-- library/effects/src/cas/Blob.ts: put, which cuts a source into chunks. A source is the list of its parts.
pub mod Held
pub mod Trees
pub mod Chunked
pub mod Shapes
pub mod Fed
pub mod Back
pub mod Materialized
pub mod Rounds
use foldlab.Base.{
  ℕ, zero, suc, ◌+◌, ◌-◌, min, List, [], ◌∷◌, ◌++◌, length, take, drop, ltb, ◌==◌, ◌||◌,
  if◌then◌else◌, Result, ok, err, Eff, succeed, fail, ◌>>=◌, map_error,
}
use foldlab.Node.{ContentId}
use foldlab.Blob.{chunk_size}
use foldlab.Blob.Graph.{
  CasStoreShape, BlobError, graph_error, graph_format_error, out_of_rounds, BlobGraphResult,
  admit_blob_leaf,
}
use foldlab.Blob.Graph.Write.{finalize_blob_graph}

-- The variables of `put`.
pub record PutState : Type 0 where
  pub leaves : List ContentId
  pub total_bytes : ℕ
  pub pending : List ℕ

-- A malformed graph is reported as a violation of the format. Defects pass through.
pub as_format : BlobError → BlobError
as_format (graph_error reason) = graph_format_error reason
as_format other = other

module _ {S : Type 0} (store : CasStoreShape S) where
  -- `admit`, after which nothing is pending.
  pub admit_pending : List ℕ → PutState → Eff S BlobError PutState
  unfolding as_format
  admit_pending bytes st = do
    admitted ← map_error as_format (admit_blob_leaf store (length st.leaves) st.total_bytes bytes)
    succeed (record {
      leaves = st.leaves ++ admitted.leaf_id ∷ [];
      total_bytes = admitted.total_bytes;
      pending = [];
    })

  -- The end of an iteration: a full chunk is admitted.
  pub fill : PutState → Eff S BlobError PutState
  unfolding admit_pending
  fill st = if length st.pending == chunk_size then admit_pending st.pending st else succeed st

  -- The loop over a part, of which `rest` is left, by the rounds left. Each round takes a byte or more.
  pub feed : ℕ → List ℕ → PutState → Eff S BlobError PutState
  unfolding fill
  feed rounds [] st = succeed st
  feed zero (byte ∷ rest) st = fail out_of_rounds
  feed (suc rounds) (byte ∷ rest) st =
      let count : ℕ = min (chunk_size - length st.pending) (length (byte ∷ rest)) in
      fill (record st { pending = st.pending ++ take count (byte ∷ rest) }) >>= λ next.
      feed rounds (drop count (byte ∷ rest)) next

  pub feed_parts : List (List ℕ) → PutState → Eff S BlobError PutState
  unfolding feed
  feed_parts [] st = succeed st
  feed_parts (part ∷ parts) st = do next ← feed (length part) part st; feed_parts parts next

  -- What is pending at the end is a chunk, and so is an empty source.
  pub flush : PutState → Eff S BlobError PutState
  unfolding admit_pending
  flush st =
      if ltb 0 (length st.pending) || length st.leaves == 0
      then admit_pending st.pending st
      else succeed st

  unfoldable pub put : List (List ℕ) → Eff S BlobError ContentId
  unfolding feed_parts flush as_format
  put source = do
    fed ← feed_parts source (record { leaves = []; total_bytes = 0; pending = [] })
    st ← flush fed
    graph ← map_error as_format (finalize_blob_graph store st.leaves st.total_bytes)
    succeed graph.blob_ref
