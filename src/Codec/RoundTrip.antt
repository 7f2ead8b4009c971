-- ===== src/Codec/RoundTrip.antt =====
-- Encoding and then decoding gives the node back, and no array but an encoding is decoded.
use foldlab.Base.{
  ℕ, ◌+◌, ◌*◌, ◌≤◌, ◌≡◌, refl, sym, ap, ◌∙◌, some, List, [], ◌∷◌, ◌++◌, append-nil, length, get_or,
  drop, slice, length-append, drop_at, slice_at, slice-append-drop, drop-cons, drop-drop,
  take-append-drop, All, All-drop, All-take, arith, length-slice,
}
use mathlib.Core.Path.{ap₂, subst}
use foldlab.Node.{IsByte, HexCodec, CasNodeInput}
use foldlab.Node.Checks.{IsNode}
use foldlab.Codec.{
  write_nat32, read_nat32, encode_refs, read_refs, encode_cas_node, decode_cas_node,
}
use foldlab.Codec.Reading.{
  get_or-IsByte, length-write_nat32, read_nat32_at, write-read_nat32, read_nat32-lt,
  length-encode_refs, read_refs-encode_refs, encode_refs-read_refs, length-read_refs,
  read_refs-IsReference,
}

module _ (hex : HexCodec) (bs : List ℕ) where
  -- The node that stands in an array whose payload and table have these sizes.
  abbrev node_at : ℕ → ℕ → CasNodeInput
  node_at p r = record {
    kind = record { version = get_or bs 0 0; tag = get_or bs 1 0 };
    payload = slice bs 6 (6 + p);
    refs = read_refs hex bs (6 + p + 4) r;
  }

  decode_at :
      (p r : ℕ)
      → read_nat32 bs 2 ≡ p
      → read_nat32 bs (6 + p) ≡ r
      → 6 + p + 4 + r * 33 ≡ length bs
      → decode_cas_node hex bs ≡ some (node_at p r)
  unfolding decode_cas_node
  decode_at p r hp hr hl = rw (hp, hr) (ground arith)

  decoded_at :
      (n : CasNodeInput)
      → decode_cas_node hex bs ≡ some n
      → (p : ℕ) × (r : ℕ) × (read_nat32 bs 2 ≡ p)
        × (read_nat32 bs (6 + p) ≡ r)
        × (6 + p + 4 + r * 33 ≡ length bs)
        × (node_at p r ≡ n)
  unfolding decode_cas_node
  decoded_at n h =
      (read_nat32 bs 2, read_nat32 bs (6 + read_nat32 bs 2), refl, refl, ground arith, ground arith)

module _ (hex : HexCodec) (n : CasNodeInput) (valid : IsNode n) where
  bytes : List ℕ
  bytes = encode_cas_node hex n

  payload_at : drop 6 bytes ≡ n.payload ++ (write_nat32 (length n.refs) ++ encode_refs hex n.refs)
  unfolding bytes encode_cas_node
  payload_at = refl

  count_at :
      drop (6 + length n.payload) bytes ≡ write_nat32 (length n.refs) ++ encode_refs hex n.refs
  count_at = drop_at 6 (6 + length n.payload) bytes n.payload _ payload_at refl

  table_at : drop (6 + length n.payload + 4) bytes ≡ encode_refs hex n.refs ++ []
  table_at =
      drop_at (6 + length n.payload) (6 + length n.payload + 4) bytes (write_nat32 (length n.refs))
        _ count_at (ap (λ k. 6 + length n.payload + k) (length-write_nat32 (length n.refs)))
      ∙ sym (append-nil _)

  length_bytes : length bytes ≡ 10 + length n.payload + length n.refs * 33
  unfolding bytes encode_cas_node write_nat32
  length_bytes = omega (
    arith,
    length-append n.payload (write_nat32 (length n.refs) ++ encode_refs hex n.refs),
    length-encode_refs hex n.refs valid.refs,
  )

  read_length : read_nat32 bytes 2 ≡ length n.payload
  unfolding bytes encode_cas_node
  read_length = read_nat32_at (length n.payload) 2 bytes _ (omega (arith, valid.payload_size)) refl

  read_count : read_nat32 bytes (6 + length n.payload) ≡ length n.refs
  read_count =
      read_nat32_at (length n.refs) (6 + length n.payload) bytes _ (omega (arith, valid.refs_size))
        count_at

  -- A valid node survives the codec: the decoder reads the encoding of a node as that node.
  pub decode-encode_cas_node : decode_cas_node hex (encode_cas_node hex n) ≡ some n
  unfolding bytes
  decode-encode_cas_node =
      decode_at hex bytes (length n.payload) (length n.refs) read_length read_count
        (omega (arith, length_bytes))
      ∙ ap some λ i. record {
        kind = record { version = version_read i; tag = tag_read i };
        payload = slice_at 6 (6 + length n.payload) bytes n.payload _ payload_at refl i;
        refs =
            read_refs-encode_refs hex n.refs bytes [] (6 + length n.payload + 4) valid.refs table_at
              i;
      }
    where
      version_read : get_or bytes 0 0 ≡ n.kind.version
      version_read = unfold encode_cas_node in omega (arith, valid.version)

      tag_read : get_or bytes 1 0 ≡ n.kind.tag
      tag_read = unfold encode_cas_node in omega (arith, valid.tag)

-- A field of four bytes in front of what follows it.
field-append-drop :
    (off : ℕ) (bs : List ℕ)
    → off + 4 ≤ length bs
    → All IsByte bs
    → write_nat32 (read_nat32 bs off) ++ drop (off + 4) bs ≡ drop off bs
field-append-drop off bs h k =
    rw (write-read_nat32 off bs h k, ← drop-drop off 4 (off + 4) bs refl)
      (take-append-drop 4 (drop off bs))

module _ (hex : HexCodec) (bs : List ℕ) (all : All IsByte bs) (p r : ℕ) (hp : read_nat32 bs 2 ≡ p)
    (hr : read_nat32 bs (6 + p) ≡ r) (hl : 6 + p + 4 + r * 33 ≡ length bs) where
  payload_length : length (slice bs 6 (6 + p)) ≡ p
  payload_length = omega (arith, length-slice 6 (6 + p) bs)

  -- What stands at the offsets of a well-sized array is a valid node.
  node_at-IsNode : IsNode (node_at hex bs p r)
  node_at-IsNode = record {
    version = get_or-IsByte bs 0 all;
    tag = get_or-IsByte bs 1 all;
    payload = All-take IsByte _ (drop 6 bs) (All-drop IsByte 6 bs all);
    payload_size = omega (arith, payload_length, read_nat32-lt 2 bs all);
    refs = read_refs-IsReference hex bs (6 + p + 4) r all (omega arith);
    refs_size = omega (arith, length-read_refs hex bs (6 + p + 4) r, read_nat32-lt (6 + p) bs all);
  }

  table_again :
      write_nat32 (length (read_refs hex bs (6 + p + 4) r))
        ++ encode_refs hex (read_refs hex bs (6 + p + 4) r)
      ≡ drop (6 + p) bs
  table_again =
      ap₂ (λ (a : ℕ) t. write_nat32 a ++ t) (length-read_refs hex bs (6 + p + 4) r ∙ sym hr)
        (encode_refs-read_refs hex bs (6 + p + 4) r all hl)
      ∙ field-append-drop (6 + p) bs (omega arith) all

  payload_again :
      write_nat32 (length (slice bs 6 (6 + p))) ++ (slice bs 6 (6 + p) ++ drop (6 + p) bs)
      ≡ drop 2 bs
  payload_again =
      ap₂ (λ (a : ℕ) t. write_nat32 a ++ t) (payload_length ∙ sym hp)
        (slice-append-drop 6 (6 + p) bs (omega arith))
      ∙ field-append-drop 2 bs (omega arith) all

  encode-node_at : encode_cas_node hex (node_at hex bs p r) ≡ bs
  unfolding encode_cas_node
  encode-node_at =
      ap₂ ◌∷◌ (omega (arith, get_or-IsByte bs 0 all)) (
        ap₂ ◌∷◌ (omega (arith, get_or-IsByte bs 1 all)) (rw table_again payload_again)
        ∙ sym (drop-cons 1 bs 0 (omega arith)))
      ∙ sym (drop-cons 0 bs 0 (omega arith))

module _ (hex : HexCodec) (bs : List ℕ) (n : CasNodeInput) (all : All IsByte bs) where
  -- Every array of bytes that decodes is the encoding of its node: no node has a second spelling.
  pub encode-decode_cas_node : decode_cas_node hex bs ≡ some n → encode_cas_node hex n ≡ bs
  encode-decode_cas_node h =
      let (p, r, hp, hr, hl, e) = decoded_at hex bs n h in
      ap (encode_cas_node hex) (sym e) ∙ encode-node_at hex bs all p r hp hr hl

  pub decode-IsNode : decode_cas_node hex bs ≡ some n → IsNode n
  decode-IsNode h =
      let (p, r, hp, hr, hl, e) = decoded_at hex bs n h in
      subst IsNode e (node_at-IsNode hex bs all p r hp hr hl)
