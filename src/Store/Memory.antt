-- ===== src/Store/Memory.antt =====
-- The store over the in-memory backend (`makeMemoryCasStore`), and the worded composition with the
-- in-memory word log (`layerWorded`).
pub mod Steps
pub mod Complete
pub mod Laws
pub mod Invariant
pub mod Runs
pub mod Receipts
pub mod Put
use foldlab.Base.{ℕ, Bool, Option, none, some, List, [], if◌then◌else◌, Result, ok, Eff}
use foldlab.Node.{ContentId, HexCodec, CasNodeInput, CasError}
use foldlab.Backend.{
  BackendFailure, ByteReader, ByteWriter, RootStore, MemoryPlane, memory_reader, memory_writer,
  memory_roots, empty_plane,
}
use foldlab.WordLog.{WordLogEntry, memory_append}
use foldlab.Store.{CasAddress, PutOutcome, ReceiptLog, load, put_outcome, put}

-- The maps of the backend, the entries of the log, and the host clock.
pub record World : Type 0 where
  pub plane : MemoryPlane
  pub log : List WordLogEntry
  pub now : ℕ

abbrev on_plane : {E A : Type 0} → Eff MemoryPlane E A → Eff World E A
on_plane m w = let (r, plane) = m w.plane in (r, record w { plane = plane })

unfoldable pub world_reader : ByteReader World
unfolding memory_reader
world_reader = record {
  load_bytes = λ id. on_plane (memory_reader.load_bytes id);
  presence = λ ids. on_plane (memory_reader.presence ids);
}

unfoldable pub world_writer : ByteWriter World
unfolding memory_writer
world_writer = record { put_bytes = λ id bytes. on_plane (memory_writer.put_bytes id bytes) }

unfoldable pub world_roots : RootStore World
unfolding memory_roots
world_roots = record {
  publish = λ root. on_plane (memory_roots.publish root);
  list = on_plane memory_roots.list;
}

pub world_log : ReceiptLog World
unfolding memory_append
world_log = record { append = λ entry w. (ok tt, record w { log = memory_append entry w.log }) }

-- Whether the composition provides a word log.
pub receipts : Bool → Option (ReceiptLog World)
unfolding world_log
receipts worded = if worded then some world_log else none

module _ (hex : HexCodec) (address : CasAddress) where
  unfoldable pub memory_load : ContentId → Eff World CasError CasNodeInput
  unfolding load world_reader
  memory_load = load hex address world_reader

  module _ (worded : Bool) where
    unfoldable pub memory_put_outcome : CasNodeInput → Eff World CasError PutOutcome
    unfolding put_outcome world_reader world_writer receipts
    memory_put_outcome =
        put_outcome hex address world_reader world_writer (λ w. w.now) (receipts worded)

    unfoldable pub memory_put : CasNodeInput → Eff World CasError ContentId
    unfolding put memory_put_outcome
    memory_put = put hex address world_reader world_writer (λ w. w.now) (receipts worded)

abbrev pub empty_world : World
empty_world = record { plane = empty_plane; log = []; now = 0 }
