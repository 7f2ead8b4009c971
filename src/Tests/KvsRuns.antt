-- ===== src/Tests/KvsRuns.antt =====
-- A put over a key-value store that is an association list.
use foldlab.Base.{ℕ, ◌≡◌, ◌⊎◌, refl, Result, ok, Option, List, [], ◌∷◌}
use foldlab.Backend.{lookup, empty_plane, memory_reader, memory_writer}
use foldlab.Backend.Kvs.{KeyValueStore, KvsFailure, kvs_reader, kvs_writer}
use foldlab.Backend.Kvs.Refines.{IsKvs, Represents}
use foldlab.Base.{none}
use foldlab.Store.{put_outcome}
use foldlab.Store.Kvs.{Failed}
use foldlab.Store.Kvs.Put.{put_outcome-Refined}
use foldlab.Tests.Hex.{lower_hex}
use foldlab.Tests.Fixtures.{toy_address, chunk_node}

abbrev Pairs : Type 0
Pairs = List (List ℕ × List ℕ)

abbrev pairs_kvs : KeyValueStore Pairs
pairs_kvs = record {
  get_uint8_array = λ path k. (ok (lookup path k), k);
  set = λ path bytes k. (ok tt, (path, bytes) ∷ k);
}

abbrev pairs_view : Pairs → List ℕ → Option (List ℕ)
pairs_view k path = lookup path k

got_pair :
    (k : Pairs) (path : List ℕ) (r : Option (List ℕ))
    → ◌≡◌ {A = Result KvsFailure (Option (List ℕ))} (ok (lookup path k)) (ok r)
    → r ≡ lookup path k
got_pair k path r h = cc

pairs_IsKvs : IsKvs pairs_kvs pairs_view
unfolding lookup
pairs_IsKvs = record {
  got = λ path k r h. got_pair k path r h;
  quiet = λ path k. refl;
  stored = λ path bytes k h q. refl;
}

no_pairs : Represents pairs_kvs pairs_view [] empty_plane
unfolding Represents lookup
no_pairs id i = refl

put_outcome-Refined_example :
    let p =
      put_outcome lower_hex toy_address
        (kvs_reader pairs_kvs)
        (kvs_writer pairs_kvs)
        (λ k. 0)
        none
        chunk_node
        [] in
    let q =
      put_outcome lower_hex toy_address memory_reader memory_writer
        (λ w. 0)
        none
        chunk_node
        empty_plane in
    Failed pairs_kvs pairs_view pairs_IsKvs p.0
    ⊎ ((q.0 ≡ p.0) × Represents pairs_kvs pairs_view p.1 q.1)
put_outcome-Refined_example =
    put_outcome-Refined pairs_kvs pairs_view pairs_IsKvs lower_hex toy_address chunk_node (λ k. 0)
      (λ w. 0) [] empty_plane no_pairs
