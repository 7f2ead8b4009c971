-- ===== src/Backend/Memory.antt =====
-- The maps of the in-memory backend: lookups after a write, and what a write keeps.
use foldlab.Base.{
  ℕ, ◌≡◌, refl, none, some, List, [], ◌∷◌, ◌++◌, text_eq, text_eq_iff, if◌then◌else◌, arith,
}
use foldlab.Node.{ContentId}
use foldlab.Backend.{MemoryPlane, lookup, memory_writer}

pub lookup-append :
    (id k : ContentId) (bytes : List ℕ) (nodes : List (ContentId × List ℕ))
    → lookup id nodes ≡ none
    → lookup k (nodes ++ (id, bytes) ∷ []) ≡ (if text_eq id k then some bytes else lookup k nodes)
unfolding lookup
lookup-append id k bytes [] h = refl
lookup-append id k bytes ((j, b) ∷ nodes) h =
    ground
      (arith, lookup-append id k bytes nodes, text_eq_iff j id, text_eq_iff j k, text_eq_iff id k)

-- A write keeps every entry, whether it succeeds or not.
pub put_bytes-keeps :
    (id k : ContentId) (bytes b : List ℕ) (s : MemoryPlane)
    → lookup k s.nodes ≡ some b
    → lookup k (memory_writer.put_bytes id bytes s).1.nodes ≡ some b
unfolding memory_writer
put_bytes-keeps id k bytes b s h =
    ground (arith, lookup-append id k bytes s.nodes, text_eq_iff id k)

pub lookup-empty : (id : ContentId) → lookup id [] ≡ none
unfolding lookup
lookup-empty id = refl
