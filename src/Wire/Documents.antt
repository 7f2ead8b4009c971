-- ===== src/Wire/Documents.antt =====
-- The control documents, written and read back.
use foldlab.Base.{
  ℕ, suc, ◌+◌, ◌*◌, ◌≡◌, ◌≤◌, refl, sym, ap, ◌∙◌, some, List, [], ◌∷◌, ◌++◌, append-nil,
  append_assoc, inl, inr, Option-cases, length, drop, All, All-append, get_or-drop, text_eq_refl,
  text_eq_iff, arith, length-append, drop_at, slice_at,
}
use foldlab.Node.{ContentId, IsByte, IsContentId, HexCodec, max_uint32}
use foldlab.Node.Checks.{All-bytes_iff, is_content_id_complete}
use foldlab.Backend.{PresenceStatus, missing, present, failed}
use foldlab.Wire.{
  RemoteCapabilities, DecodedPresenceDocument, read_uint32, write_uint32,
  encode_capability_document, decode_capability_document, is_capabilities, encode_presence_document,
  decode_presence_document, read_statuses, presence_byte, record_byte, record_status,
  status_of_byte, encode_keys, encode_key_list_document, read_keys, cons_key, same_document,
  decode_key_list_document,
}

read-write_uint32 :
    (v : ℕ) (rest : List ℕ) → v ≤ max_uint32 → read_uint32 (write_uint32 v ++ rest) 0 ≡ v
unfolding read_uint32 write_uint32
read-write_uint32 v rest h = omega arith

read_uint32-drop : (off : ℕ) (bs : List ℕ) → read_uint32 bs off ≡ read_uint32 (drop off bs) 0
unfolding read_uint32
read_uint32-drop off bs = omega (
  arith,
  get_or-drop off 0 off bs 0,
  get_or-drop off 1 (off + 1) bs 0,
  get_or-drop off 2 (off + 2) bs 0,
  get_or-drop off 3 (off + 3) bs 0,
)

pub read_uint32_at :
    (off : ℕ) (bs rest : List ℕ) (v : ℕ)
    → v ≤ max_uint32
    → drop off bs ≡ write_uint32 v ++ rest
    → read_uint32 bs off ≡ v
read_uint32_at off bs rest v h e = read_uint32-drop off bs ∙ rw e (read-write_uint32 v rest h)

write_uint32-IsByte : (v : ℕ) → All IsByte (write_uint32 v)
unfolding write_uint32
write_uint32-IsByte v = (omega arith, (omega arith, (omega arith, (omega arith, tt))))

-- A capability document within the limits of its two fields is read back.
pub decode-encode_capability_document :
    (limits : RemoteCapabilities)
    → limits.max_batch_keys ≤ max_uint32
    → limits.max_blob_bytes ≤ max_uint32
    → decode_capability_document (encode_capability_document limits) ≡ some limits
unfolding decode_capability_document encode_capability_document is_capabilities write_uint32
decode-encode_capability_document limits h k = ground (
  arith,
  keys_read,
  bytes_read,
  text_eq_refl (encode_capability_document limits),
  (All-bytes_iff (encode_capability_document limits)).1 (
      All-append IsByte (write_uint32 limits.max_batch_keys) (write_uint32 limits.max_blob_bytes)
        (write_uint32-IsByte limits.max_batch_keys) (write_uint32-IsByte limits.max_blob_bytes)),
)
  where
    keys_read : read_uint32 (encode_capability_document limits) 0 ≡ limits.max_batch_keys
    keys_read = read-write_uint32 limits.max_batch_keys (write_uint32 limits.max_blob_bytes) h

    bytes_read : read_uint32 (encode_capability_document limits) 4 ≡ limits.max_blob_bytes
    bytes_read =
        read_uint32_at 4 (encode_capability_document limits) [] limits.max_blob_bytes k refl

-- The keys of one answer, in request order.
abbrev pub answered : PresenceStatus → List ContentId → List PresenceStatus → List ContentId
answered status [] statuses = []
answered status (key ∷ keys) [] = []
answered missing (key ∷ keys) (missing ∷ statuses) = key ∷ answered missing keys statuses
answered missing (key ∷ keys) (present ∷ statuses) = answered missing keys statuses
answered missing (key ∷ keys) (failed ∷ statuses) = answered missing keys statuses
answered present (key ∷ keys) (missing ∷ statuses) = answered present keys statuses
answered present (key ∷ keys) (present ∷ statuses) = key ∷ answered present keys statuses
answered present (key ∷ keys) (failed ∷ statuses) = answered present keys statuses
answered failed (key ∷ keys) (missing ∷ statuses) = answered failed keys statuses
answered failed (key ∷ keys) (present ∷ statuses) = answered failed keys statuses
answered failed (key ∷ keys) (failed ∷ statuses) = key ∷ answered failed keys statuses

abbrev pub by_answer : List ContentId → List PresenceStatus → DecodedPresenceDocument
by_answer keys statuses = record {
  presence = record {
    present = answered present keys statuses;
    missing = answered missing keys statuses;
    failed = answered failed keys statuses;
  };
  statuses = statuses;
}

read_statuses-encode :
    (keys : List ContentId) (statuses : List PresenceStatus)
    → length statuses ≡ length keys
    → read_statuses keys (encode_presence_document statuses) ≡ some (by_answer keys statuses)
unfolding read_statuses encode_presence_document presence_byte record_byte record_status
    status_of_byte
read_statuses-encode [] [] h = refl
read_statuses-encode [] (s ∷ statuses) h = absurd (omega arith)
read_statuses-encode (key ∷ keys) [] h = absurd (omega arith)
read_statuses-encode (key ∷ keys) (missing ∷ statuses) h =
    rw (read_statuses-encode keys statuses (omega arith)) refl
read_statuses-encode (key ∷ keys) (present ∷ statuses) h =
    rw (read_statuses-encode keys statuses (omega arith)) refl
read_statuses-encode (key ∷ keys) (failed ∷ statuses) h =
    rw (read_statuses-encode keys statuses (omega arith)) refl

encode_presence-IsByte :
    (statuses : List PresenceStatus) → All IsByte (encode_presence_document statuses)
unfolding encode_presence_document presence_byte
encode_presence-IsByte [] = tt
encode_presence-IsByte (missing ∷ statuses) = (omega arith, encode_presence-IsByte statuses)
encode_presence-IsByte (present ∷ statuses) = (omega arith, encode_presence-IsByte statuses)
encode_presence-IsByte (failed ∷ statuses) = (omega arith, encode_presence-IsByte statuses)

length-encode_presence :
    (statuses : List PresenceStatus) → length (encode_presence_document statuses) ≡ length statuses
unfolding encode_presence_document
length-encode_presence [] = refl
length-encode_presence (s ∷ statuses) = ap suc (length-encode_presence statuses)

-- A presence document of one answer for each key is read back: the answers themselves, and the keys of
-- each answer in request order.
pub decode-encode_presence_document :
    (keys : List ContentId) (statuses : List PresenceStatus)
    → length statuses ≡ length keys
    → decode_presence_document keys (encode_presence_document statuses)
      ≡ some (by_answer keys statuses)
unfolding decode_presence_document
decode-encode_presence_document keys statuses h = ground (
  arith,
  read_statuses-encode keys statuses h,
  (All-bytes_iff (encode_presence_document statuses)).1 (encode_presence-IsByte statuses),
  length-encode_presence statuses,
)

module _ (hex : HexCodec) where
  open hex use {encode_hex, decode_hex, encode-decode, length-decode, decode-IsByte}

  read_keys-encode_keys :
      (keys : List ContentId) (bs rest : List ℕ) (off : ℕ)
      → All IsContentId keys
      → drop off bs ≡ encode_keys hex keys ++ rest
      → read_keys hex bs off (length keys) ≡ some keys
  unfolding read_keys encode_keys cons_key
  read_keys-encode_keys [] bs rest off h e = refl
  read_keys-encode_keys (key ∷ keys) bs rest off (h, hs) e =
      rw
        (
          ap encode_hex (
                slice_at off (off + 32) bs (decode_hex key) _ here
                  (ap (λ n. off + n) (length-decode key h)))
              ∙ encode-decode key h,
          read_keys-encode_keys keys bs rest (off + 32) hs (
              drop_at off (off + 32) bs (decode_hex key) _ here
                (ap (λ n. off + n) (length-decode key h))),
          is_content_id_complete key h,
        )
        refl
    where
      here : drop off bs ≡ decode_hex key ++ (encode_keys hex keys ++ rest)
      here = e ∙ append_assoc (decode_hex key) (encode_keys hex keys) rest

  encode_keys-IsByte :
      (keys : List ContentId) → All IsContentId keys → All IsByte (encode_keys hex keys)
  unfolding encode_keys
  encode_keys-IsByte [] h = tt
  encode_keys-IsByte (key ∷ keys) (h, hs) =
      All-append IsByte (decode_hex key) (encode_keys hex keys) (decode-IsByte key h)
        (encode_keys-IsByte keys hs)

  length-encode_keys :
      (keys : List ContentId)
      → All IsContentId keys
      → length (encode_keys hex keys) ≡ length keys * 32
  unfolding encode_keys
  length-encode_keys [] h = refl
  length-encode_keys (key ∷ keys) (h, hs) = omega (
    arith,
    length-append (decode_hex key) (encode_keys hex keys),
    length-decode key h,
    length-encode_keys keys hs,
  )

  -- A list of identifiers, no more than 32 bits count, is read back from its document, in order.
  pub decode-encode_key_list_document :
      (keys : List ContentId)
      → All IsContentId keys
      → length keys ≤ max_uint32
      → decode_key_list_document hex (encode_key_list_document hex keys) ≡ some keys
  unfolding decode_key_list_document encode_key_list_document same_document write_uint32
  decode-encode_key_list_document keys h k = ground (
    arith,
    read-write_uint32 (length keys) (encode_keys hex keys) k,
    read_keys-encode_keys keys (encode_key_list_document hex keys) [] 4 h (sym (append-nil _)),
    text_eq_refl (encode_key_list_document hex keys),
    length-encode_keys keys h,
    (All-bytes_iff (encode_key_list_document hex keys)).1 (
        All-append IsByte (write_uint32 (length keys)) (encode_keys hex keys)
          (write_uint32-IsByte (length keys)) (encode_keys-IsByte keys h)),
  )

  -- Bytes that are read as a list of keys are the document of that list: no list has a second spelling.
  pub encode-decode_key_list_document :
      (input : List ℕ) (keys : List ContentId)
      → decode_key_list_document hex input ≡ some keys
      → encode_key_list_document hex keys ≡ input
  unfolding decode_key_list_document
  encode-decode_key_list_document input keys h =
      elim (Option-cases (read_keys hex input 4 (read_uint32 input 0))) [
        | inl e ↦ ground arith
        | inr (read, e) ↦ ground (arith, text_eq_iff (encode_key_list_document hex read) input)
      ]
