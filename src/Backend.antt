-- ===== src/Backend.antt =====
-- library/effects/src/cas/Backend.ts: the storage seams and the in-memory backend. A backend is an
-- interface over a world `S` that its operations may read and change. A map is an association list
-- in insertion order.
pub mod Memory
pub mod Kvs
use foldlab.Base.{
  ℕ, ◌≡◌, Bool, true, false, Option, none, some, List, [], ◌∷◌, ◌++◌, map, text_eq, if◌then◌else◌,
  Eff, succeed, fail, Result, ok, err,
}
use foldlab.Node.{ContentId}
use foldlab.Codec.{bytes_equal}

-- A backend that could not answer. `unavailable` stands for every reason of a host.
pub data BackendFailure : Type 0 where
  collision_at : ContentId → BackendFailure
  reference_unverified : ContentId → BackendFailure
  unavailable : BackendFailure

-- internal/wire.ts: one answer to a presence query.
pub data PresenceStatus : Type 0 where
  missing present failed : PresenceStatus

pub record ByteReader (S : Type 0) : Type 0 where
  pub load_bytes : ContentId → Eff S BackendFailure (Option (List ℕ))
  pub presence : List ContentId → Eff S BackendFailure (List PresenceStatus)

pub record ByteWriter (S : Type 0) : Type 0 where
  pub put_bytes : ContentId → List ℕ → Eff S BackendFailure (Unit {0})

pub record RootStore (S : Type 0) : Type 0 where
  pub publish : ContentId → Eff S BackendFailure (Unit {0})
  pub list : Eff S BackendFailure (List ContentId)

-- The maps that `makeMemoryBackend` closes over.
pub record MemoryPlane : Type 0 where
  pub nodes : List (ContentId × List ℕ)
  pub roots : List ContentId

-- `Map.get`.
unfoldable pub lookup : ContentId → List (ContentId × List ℕ) → Option (List ℕ)
lookup id [] = none
lookup id ((k, bytes) ∷ rest) = if text_eq k id then some bytes else lookup id rest

-- `Set.has`, and `Array.includes`.
unfoldable pub contains : ContentId → List ContentId → Bool
contains id [] = false
contains id (k ∷ rest) = if text_eq k id then true else contains id rest

unfoldable pub status_of : Option (List ℕ) → PresenceStatus
status_of none = missing
status_of (some bytes) = present

-- The three seams of `makeMemoryBackend`.
memory_put : ContentId → List ℕ → Option (List ℕ) → Eff MemoryPlane BackendFailure (Unit {0})
memory_put id bytes none s = (ok tt, record s { nodes = s.nodes ++ (id, bytes) ∷ [] })
memory_put id bytes (some resident) s =
    if bytes_equal resident bytes then (ok tt, s) else (err (collision_at id), s)

unfoldable pub memory_reader : ByteReader MemoryPlane
unfolding lookup status_of
memory_reader = record {
  load_bytes = λ id s. (ok (lookup id s.nodes), s);
  presence = λ ids s. (ok (map (λ id. status_of (lookup id s.nodes)) ids), s);
}

unfoldable pub memory_writer : ByteWriter MemoryPlane
unfolding memory_put
memory_writer = record { put_bytes = λ id bytes s. memory_put id bytes (lookup id s.nodes) s }

unfoldable pub memory_roots : RootStore MemoryPlane
unfolding contains
memory_roots = record {
  publish = λ root s.
      (ok tt, (if contains root s.roots then s else record s { roots = s.roots ++ root ∷ [] }));
  list = λ s. (ok s.roots, s);
}

abbrev pub empty_plane : MemoryPlane
empty_plane = record { nodes = []; roots = [] }
