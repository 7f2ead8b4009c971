-- ===== src/Backend/Kvs.antt =====
-- library/effects/src/cas/KvsBackend.ts: the byte plane over a key-value store, which is a parameter, and the
-- layout of paths of library/effects/src/cas/Backend.ts.
pub mod Refines
use foldlab.Base.{
  ℕ, Option, none, some, List, [], ◌∷◌, ◌++◌, take, drop, Result, ok, err, Eff, succeed, map_error,
  ◌>>=◌,
}
use foldlab.Node.{ContentId}
use foldlab.Backend.{
  BackendFailure, unavailable, PresenceStatus, failed, status_of, ByteReader, ByteWriter,
}

-- `objectRelativePath`: the directory of objects, two digits, and the rest.
unfoldable pub object_relative_path : ContentId → List ℕ
object_relative_path id =
    b'o' ∷ b'b' ∷ b'j' ∷ b'e' ∷ b'c' ∷ b't' ∷ b's' ∷ b'/' ∷ (take 2 id ++ b'/' ∷ drop 2 id)

-- A failure of the key-value store, whatever its method and message.
pub data KvsFailure : Type 0 where
  kvs_failure : KvsFailure

-- What the backend uses of a key-value store.
pub record KeyValueStore (K : Type 0) : Type 0 where
  pub get_uint8_array : List ℕ → Eff K KvsFailure (Option (List ℕ))
  pub set : List ℕ → List ℕ → Eff K KvsFailure (Unit {0})

pub failure : KvsFailure → BackendFailure
failure e = unavailable

module _ {K : Type 0} (kvs : KeyValueStore K) where
  -- A key that cannot be read is reported, and the batch goes on.
  presence_status : Result KvsFailure (Option (List ℕ)) → PresenceStatus
  unfolding status_of
  presence_status (ok resident) = status_of resident
  presence_status (err e) = failed

  presence_of : ContentId → Eff K BackendFailure PresenceStatus
  unfolding presence_status object_relative_path
  presence_of id s =
      let (r, t) = kvs.get_uint8_array (object_relative_path id) s in (ok (presence_status r), t)

  presence_all : List ContentId → Eff K BackendFailure (List PresenceStatus)
  unfolding presence_of
  presence_all [] = succeed []
  presence_all (id ∷ ids) = do
    status ← presence_of id
    rest ← presence_all ids
    succeed (status ∷ rest)

  unfoldable pub kvs_reader : ByteReader K
  unfolding presence_all failure object_relative_path
  kvs_reader = record {
    load_bytes = λ id. map_error failure (kvs.get_uint8_array (object_relative_path id));
    presence = presence_all;
  }

  unfoldable pub kvs_writer : ByteWriter K
  unfolding failure object_relative_path
  kvs_writer = record {
    put_bytes = λ id bytes. map_error failure (kvs.set (object_relative_path id) bytes);
  }
