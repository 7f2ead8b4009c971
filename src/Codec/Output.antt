-- ===== src/Codec/Output.antt =====
-- What the encoder writes is an array of bytes.
use foldlab.Base.{ℕ, List, [], ◌∷◌, ◌++◌, length, All, All-append, arith}
use foldlab.Node.{IsByte, HexCodec, CasReference, CasNodeInput}
use foldlab.Node.Checks.{IsNode, IsReference}
use foldlab.Codec.{write_nat32, encode_refs, encode_cas_node}

pub write_nat32-IsByte : (v : ℕ) → All IsByte (write_nat32 v)
unfolding write_nat32
write_nat32-IsByte v = (omega arith, (omega arith, (omega arith, (omega arith, tt))))

module _ (hex : HexCodec) where
  encode_refs-IsByte :
      (refs : List CasReference) → All IsReference refs → All IsByte (encode_refs hex refs)
  unfolding encode_refs
  encode_refs-IsByte [] h = tt
  encode_refs-IsByte (ref ∷ refs) (h, hs) = (
    omega arith,
    All-append IsByte _ _ (hex.decode-IsByte ref.id h.0) (encode_refs-IsByte refs hs),
  )

  pub encode_cas_node-IsByte : (n : CasNodeInput) → IsNode n → All IsByte (encode_cas_node hex n)
  unfolding encode_cas_node
  encode_cas_node-IsByte n h = (
    omega arith,
    (
      omega arith,
      All-append IsByte (write_nat32 (length n.payload))
          (n.payload ++ (write_nat32 (length n.refs) ++ encode_refs hex n.refs))
          (write_nat32-IsByte (length n.payload))
          (All-append IsByte n.payload (write_nat32 (length n.refs) ++ encode_refs hex n.refs)
            h.payload
            (All-append IsByte (write_nat32 (length n.refs)) (encode_refs hex n.refs)
              (write_nat32-IsByte (length n.refs)) (encode_refs-IsByte n.refs h.refs))),
    ),
  )
