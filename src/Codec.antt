-- ===== src/Codec.antt =====
-- library/effects/src/internal/casCodec.ts and internal/bytes.ts: the scheme-0 canonical codec.
-- A byte array is a list. The encoder fills a fresh array from left to right, which is the
-- concatenation of the parts that it writes; the decoder reads by offset, as the source does.
pub mod Bytes
pub mod Reading
pub mod RoundTrip
pub mod Output
use foldlab.Base.{
  ℕ, zero, suc, ◌+◌, ◌*◌, ◌/◌, ◌%◌, Bool, true, false, not, Option, none, some, List, [], ◌∷◌, ◌++◌,
  length, get_or, slice, ltb, ◌==◌, if◌then◌else◌,
}
use foldlab.Node.{HexCodec, CasReference, CasNodeInput}

abbrev pub cas_scheme_version : ℕ
cas_scheme_version = 0

-- What a write into a Uint8Array keeps of a number.
abbrev pub to_u8 : ℕ → ℕ
to_u8 v = v % 256

-- `writeNat32`: the four bytes that it writes, the most significant first.
unfoldable pub write_nat32 : ℕ → List ℕ
write_nat32 value =
    to_u8 (value / 0x1000000) ∷ to_u8 (value / 0x10000) ∷ to_u8 (value / 0x100) ∷ to_u8 value ∷ []

-- `readNat32`: a byte beyond the end reads as 0.
unfoldable pub read_nat32 : List ℕ → ℕ → ℕ
read_nat32 source offset =
    get_or source offset 0 * 0x1000000
    + get_or source (offset + 1) 0 * 0x10000
    + get_or source (offset + 2) 0 * 0x100
    + get_or source (offset + 3) 0

-- The loop of `bytesEqual`; a byte beyond the end of `right` is undefined and equals no byte.
bytes_equal_loop : List ℕ → List ℕ → Bool
bytes_equal_loop [] right = true
bytes_equal_loop (x ∷ left) [] = false
bytes_equal_loop (x ∷ left) (y ∷ right) =
    let rest = bytes_equal_loop left right in if not (x == y) then false else rest

unfoldable pub bytes_equal : List ℕ → List ℕ → Bool
unfolding bytes_equal_loop
bytes_equal left right =
    if not (length left == length right) then false else bytes_equal_loop left right

module _ (hex : HexCodec) where
  open hex use {encode_hex, decode_hex}

  -- One entry of the reference table: the expected tag, then the 32 bytes of the address.
  unfoldable pub encode_ref : CasReference → List ℕ
  encode_ref ref = to_u8 ref.expected_tag ∷ decode_hex ref.id

  unfoldable pub encode_refs : List CasReference → List ℕ
  unfolding encode_ref
  encode_refs [] = []
  encode_refs (ref ∷ refs) = encode_ref ref ++ encode_refs refs

  unfoldable pub encode_cas_node : CasNodeInput → List ℕ
  unfolding write_nat32
  encode_cas_node node =
      to_u8 node.kind.version
      ∷ to_u8 node.kind.tag
      ∷ (write_nat32 (length node.payload)
          ++ (node.payload ++ (write_nat32 (length node.refs) ++ encode_refs node.refs)))

  -- The loop over the reference table, by the rounds left.
  unfoldable pub read_refs : List ℕ → ℕ → ℕ → List CasReference
  read_refs bytes offset zero = []
  read_refs bytes offset (suc rounds) =
      record {
        id = encode_hex (slice bytes (offset + 1) (offset + 33));
        expected_tag = get_or bytes offset 0;
      }
      ∷ read_refs bytes (offset + 33) rounds

  unfoldable pub decode_cas_node : List ℕ → Option CasNodeInput
  decode_cas_node bytes =
      let payload_length : ℕ = read_nat32 bytes 2 in
      let count_offset : ℕ = 6 + payload_length in
      let ref_count : ℕ = read_nat32 bytes count_offset in
      let refs_offset : ℕ = count_offset + 4 in
      if ltb (length bytes) 10
      then none
      else if ltb (length bytes) (count_offset + 4)
      then none
      else if not (refs_offset + ref_count * 33 == length bytes)
      then none
      else some (record {
        kind = record { version = get_or bytes 0 0; tag = get_or bytes 1 0 };
        payload = slice bytes 6 count_offset;
        refs = read_refs bytes refs_offset ref_count;
      })
