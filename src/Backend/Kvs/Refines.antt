-- ===== src/Backend/Kvs/Refines.antt =====
-- The key-value backend against the in-memory one, which is its specification.
use foldlab.Base.{
  ℕ, ◌≡◌, inl, inr, refl, ap, ◌∙◌, Option, none, some, List, [], ◌∷◌, ◌++◌, length, take, drop, ok,
  Bool-cases, Result-cases, text_eq, text_eq_iff, arith, if◌then◌else◌,
}
use foldlab.Node.{ContentId, IsContentId}
use foldlab.Backend.{MemoryPlane, lookup}
use foldlab.Backend.Memory.{lookup-append}
use foldlab.Backend.Kvs.{object_relative_path, KeyValueStore, kvs_reader, kvs_writer}

split_of :
    (xs ys : List ℕ)
    → length xs ≡ 64
    → length ys ≡ 64
    → take 2 xs ++ b'/' ∷ drop 2 xs ≡ take 2 ys ++ b'/' ∷ drop 2 ys
    → xs ≡ ys
split_of (x ∷ x' ∷ xs) (y ∷ y' ∷ ys) h k e = cc
split_of [] ys h k e = absurd (omega arith)
split_of (x ∷ []) ys h k e = absurd (omega arith)
split_of (x ∷ x' ∷ xs) [] h k e = absurd (omega arith)
split_of (x ∷ x' ∷ xs) (y ∷ []) h k e = absurd (omega arith)

same_split :
    (a b : ContentId)
    → object_relative_path a ≡ object_relative_path b
    → take 2 a ++ b'/' ∷ drop 2 a ≡ take 2 b ++ b'/' ∷ drop 2 b
unfolding object_relative_path
same_split a b h = ap (drop 8) h

-- Two identifiers have the same path only where they are the same.
pub path_injective :
    (a b : ContentId)
    → IsContentId a
    → IsContentId b
    → text_eq (object_relative_path a) (object_relative_path b) ≡ text_eq a b
path_injective a b ha hb = elim (Bool-cases (text_eq a b)) [
  | inl e ↦
      let q = (text_eq_iff a b).0 e in
      rw e (
        (text_eq_iff (object_relative_path a) (object_relative_path b)).1
          (ap object_relative_path q))
  | inr e ↦ elim (Bool-cases (text_eq (object_relative_path a) (object_relative_path b))) [
    | inr f ↦ rw (e, f) refl
    | inl f ↦
        let q : a ≡ b =
          split_of a b ha.size hb.size (
            same_split a b ((text_eq_iff (object_relative_path a) (object_relative_path b)).0 f)) in
        absurd (ground (arith, text_eq_iff a b))
  ]
]

module _ {K : Type 0} (kvs : KeyValueStore K) (view : K → List ℕ → Option (List ℕ)) where
  -- The documented behaviour of a key-value store. A read that answers gives the value of its key, and changes
  -- nothing; a write that answers sets its key. Either may fail.
  pub record IsKvs : Type 0 where
    pub got :
        (path : List ℕ) (k : K) (r : Option (List ℕ))
        → (kvs.get_uint8_array path k).0 ≡ ok r
        → r ≡ view k path
    pub quiet : (path : List ℕ) (k : K) → (kvs.get_uint8_array path k).1 ≡ k
    pub stored :
        (path bytes : List ℕ) (k : K)
        → (kvs.set path bytes k).0 ≡ ok tt
        → (q : List ℕ)
        → view (kvs.set path bytes k).1 q ≡ (if text_eq path q then some bytes else view k q)

  -- The values at the paths of the identifiers are the entries of the plane.
  unfoldable pub Represents : K → MemoryPlane → Type 0
  Represents k plane =
      (id : ContentId) → IsContentId id → view k (object_relative_path id) ≡ lookup id plane.nodes

  module _ (law : IsKvs) where
    pub load_bytes_quiet : (id : ContentId) (k : K) → ((kvs_reader kvs).load_bytes id k).1 ≡ k
    unfolding kvs_reader
    load_bytes_quiet id k = law.quiet (object_relative_path id) k

    pub load_bytes-Represents :
        (id : ContentId) (k : K) (plane : MemoryPlane) (r : Option (List ℕ))
        → IsContentId id
        → Represents k plane
        → ((kvs_reader kvs).load_bytes id k).0 ≡ ok r
        → r ≡ lookup id plane.nodes
    unfolding kvs_reader Represents
    load_bytes-Represents id k plane r i h e =
        elim (Result-cases (kvs.get_uint8_array (object_relative_path id) k).0) [
          | inl (x, f) ↦ ground (arith, law.got (object_relative_path id) k x f, h id i)
          | inr (x, f) ↦ absurd (ground arith)
        ]

    pub put_bytes-Represents :
        (id : ContentId) (bytes : List ℕ) (k : K) (plane : MemoryPlane)
        → IsContentId id
        → Represents k plane
        → lookup id plane.nodes ≡ none
        → ((kvs_writer kvs).put_bytes id bytes k).0 ≡ ok tt
        → Represents
            ((kvs_writer kvs).put_bytes id bytes k).1
            (record plane { nodes = plane.nodes ++ (id, bytes) ∷ [] })
    unfolding kvs_writer Represents
    put_bytes-Represents id bytes k plane i h absent e other j =
        elim (Result-cases (kvs.set (object_relative_path id) bytes k).0) [
          | inr (x, f) ↦ absurd (ground arith)
          | inl (u, f) ↦
              law.stored (object_relative_path id) bytes k (f ∙ ap ok (unit_eq u))
                (object_relative_path other)
              ∙ rw
                  (
                    path_injective id other i j,
                    lookup-append id other bytes plane.nodes absent,
                    h other j,
                  )
                  refl
        ]
      where
        unit_eq : (u : Unit {0}) → u ≡ tt
        unit_eq u = refl
