-- ===== src/Store/Verify.antt =====
-- What the read-verification law guarantees.
use foldlab.Base.{
  ℕ, ◌≡◌, ap, Result, ok, Option, none, some, Option-cases, Result-cases, inl, inr, List,
  text_eq_iff, text_eq_refl, arith, map_error, >>=-eq-ok,
}
use foldlab.Node.{ContentId, HexCodec, CasNodeInput, CasError}
use foldlab.Node.Checks.{IsNode}
use foldlab.Codec.{encode_cas_node, decode_cas_node, cas_scheme_version}
use foldlab.Codec.Bytes.{bytes_equal_iff, bytes_equal_refl}
use foldlab.Codec.RoundTrip.{decode-encode_cas_node}
use foldlab.Backend.{ByteReader}
use foldlab.Store.{CasAddress, verify_node_bytes, backend_failure, load, load_resident}

module _ (hex : HexCodec) (address : CasAddress) where
  -- Bytes that are served under `id` and verify are the encoding of the node, which is at `id`.
  pub record IsVerified (id : ContentId) (bytes : List ℕ) (n : CasNodeInput) : Type 0 where
    pub encoded : bytes ≡ encode_cas_node hex n
    pub known : n.kind.version ≡ cas_scheme_version
    pub addressed : address.digest bytes ≡ ok id

  pub verify_node_bytes_sound :
      (id : ContentId) (bytes : List ℕ) (n : CasNodeInput)
      → verify_node_bytes hex address id bytes ≡ ok n
      → IsVerified id bytes n
  unfolding verify_node_bytes
  verify_node_bytes_sound id bytes n h = elim (Option-cases (decode_cas_node hex bytes)) [
    | inl e ↦ ground arith
    | inr (m, e) ↦ elim (Result-cases (address.digest bytes)) [
      | inl (actual, d) ↦
          ground (arith, bytes_equal_iff (encode_cas_node hex m) bytes, text_eq_iff actual id)
      | inr (x, d) ↦ ground arith
    ]
  ]

  pub verify_node_bytes_complete :
      (id : ContentId) (n : CasNodeInput)
      → IsNode n
      → n.kind.version ≡ cas_scheme_version
      → address.digest (encode_cas_node hex n) ≡ ok id
      → verify_node_bytes hex address id (encode_cas_node hex n) ≡ ok n
  unfolding verify_node_bytes
  verify_node_bytes_complete id n valid known addressed = ground (
    arith,
    decode-encode_cas_node hex n valid,
    bytes_equal_refl (encode_cas_node hex n),
    text_eq_refl id,
  )

  -- Whatever the backend is and does, a load that answers a node answers one whose encoding has the
  -- identifier as its address and whose kind is known: corrupt or hostile bytes are refused.
  pub load_sound :
      {S : Type 0} (reader : ByteReader S) (id : ContentId) (s t : S) (n : CasNodeInput)
      → load hex address reader id s ≡ (ok n, t)
      → (address.digest (encode_cas_node hex n) ≡ ok id) × (n.kind.version ≡ cas_scheme_version)
  unfolding load
  load_sound {S = S} reader id s t n h =
      let (resident, u, e, k) =
        >>=-eq-ok (load_resident hex address reader id)
          (map_error (backend_failure id) (reader.load_bytes id)) s h in
      served resident u k
    where
      served :
          (resident : Option (List ℕ)) (u : S)
          → load_resident hex address reader id resident u ≡ (ok n, t)
          → (address.digest (encode_cas_node hex n) ≡ ok id) × (n.kind.version ≡ cas_scheme_version)
      served none u k = cc
      served (some bytes) u k =
          let v =
            verify_node_bytes_sound id bytes n
              (ap (λ (p : Result CasError CasNodeInput × S). p.0) k) in
          (rw (← v.encoded) v.addressed, v.known)
