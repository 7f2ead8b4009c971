-- ===== src/Wire.antt =====
-- library/effects/src/internal/wire.ts: the codecs of the cas-http/0 control documents.
pub mod Documents
use foldlab.Base.{
  ℕ, zero, suc, ◌+◌, ◌*◌, ◌/◌, ◌%◌, ◌^◌, Bool, Option, none, some, List, [], ◌∷◌, ◌++◌, length,
  get_or, slice, ltb, leb, not, ◌&&◌, ◌||◌, ◌==◌, text_eq, if◌then◌else◌,
}
use foldlab.Node.{ContentId, HexCodec, max_uint32, all_of, is_byte, is_content_id}
use foldlab.Codec.{to_u8}
use foldlab.Backend.{PresenceStatus, missing, present, failed}

-- `RemoteCapabilities`.
pub record RemoteCapabilities : Type 0 where
  pub max_batch_keys : ℕ
  pub max_blob_bytes : ℕ

-- `readUint32`, and `DataView.getUint32` within the bounds of its eight bytes.
unfoldable pub read_uint32 : List ℕ → ℕ → ℕ
read_uint32 bytes offset =
    get_or bytes offset 0 * 0x1000000
    + get_or bytes (offset + 1) 0 * 0x10000
    + get_or bytes (offset + 2) 0 * 0x100
    + get_or bytes (offset + 3) 0

-- `writeUint32` and `DataView.setUint32`: the four bytes; a shift first reduces the number to 32 bits.
unfoldable pub write_uint32 : ℕ → List ℕ
write_uint32 value =
    to_u8 (value % 2 ^ 32 / 0x1000000)
    ∷ to_u8 (value % 2 ^ 32 / 0x10000)
    ∷ to_u8 (value % 2 ^ 32 / 0x100)
    ∷ to_u8 (value % 2 ^ 32)
    ∷ []

unfoldable pub encode_capability_document : RemoteCapabilities → List ℕ
unfolding write_uint32
encode_capability_document limits =
    write_uint32 limits.max_batch_keys ++ write_uint32 limits.max_blob_bytes

-- The `RemoteCapabilities` schema on two unsigned fields.
is_capabilities : RemoteCapabilities → Bool
is_capabilities limits =
    leb limits.max_batch_keys max_uint32 && leb limits.max_blob_bytes max_uint32

unfoldable pub decode_capability_document : List ℕ → Option RemoteCapabilities
unfolding read_uint32 encode_capability_document is_capabilities
decode_capability_document input =
    let limits : RemoteCapabilities = record {
      max_batch_keys = read_uint32 input 0;
      max_blob_bytes = read_uint32 input 4;
    } in
    if not (all_of is_byte input && (length input == 8))
    then none
    else if not (is_capabilities limits)
    then none
    else if text_eq (encode_capability_document limits) input
    then some limits
    else none

pub key_list_document_encoded_length : ℕ → Option ℕ
key_list_document_encoded_length count =
    if leb count max_uint32 then some (4 + count * 32) else none

-- The positions of the three answers, in request order.
pub record CasPresence : Type 0 where
  pub present : List ContentId
  pub missing : List ContentId
  pub failed : List ContentId

pub record DecodedPresenceDocument : Type 0 where
  pub presence : CasPresence
  pub statuses : List PresenceStatus

pub presence_byte : PresenceStatus → ℕ
presence_byte missing = 0
presence_byte present = 1
presence_byte failed = 2

unfoldable pub encode_presence_document : List PresenceStatus → List ℕ
unfolding presence_byte
encode_presence_document [] = []
encode_presence_document (status ∷ statuses) =
    presence_byte status ∷ encode_presence_document statuses

-- One step of the loop: the key joins the list of its answer.
record_status : ContentId → PresenceStatus → DecodedPresenceDocument → DecodedPresenceDocument
record_status key missing d = record {
  presence = record d.presence { missing = key ∷ d.presence.missing };
  statuses = missing ∷ d.statuses;
}
record_status key present d = record {
  presence = record d.presence { present = key ∷ d.presence.present };
  statuses = present ∷ d.statuses;
}
record_status key failed d = record {
  presence = record d.presence { failed = key ∷ d.presence.failed };
  statuses = failed ∷ d.statuses;
}

status_of_byte : ℕ → Option PresenceStatus
status_of_byte zero = some missing
status_of_byte (suc zero) = some present
status_of_byte (suc (suc zero)) = some failed
status_of_byte (suc (suc (suc n))) = none

record_byte :
    ContentId
    → Option PresenceStatus
    → Option DecodedPresenceDocument
    → Option DecodedPresenceDocument
unfolding record_status
record_byte key none rest = none
record_byte key (some status) none = none
record_byte key (some status) (some d) = some (record_status key status d)

-- The loop over the answers. A key that is missing refuses.
read_statuses : List ContentId → List ℕ → Option DecodedPresenceDocument
unfolding record_byte status_of_byte
read_statuses keys [] =
    some (record { presence = record { present = []; missing = []; failed = [] }; statuses = [] })
read_statuses [] (b ∷ bytes) = none
read_statuses (key ∷ keys) (b ∷ bytes) =
    record_byte key (status_of_byte b) (read_statuses keys bytes)

unfoldable pub decode_presence_document : List ContentId → List ℕ → Option DecodedPresenceDocument
unfolding read_statuses
decode_presence_document keys input =
    if not (all_of is_byte input && (length input == length keys))
    then none
    else read_statuses keys input

module _ (hex : HexCodec) where
  open hex use {encode_hex, decode_hex}

  encode_keys : List ContentId → List ℕ
  encode_keys [] = []
  encode_keys (key ∷ keys) = decode_hex key ++ encode_keys keys

  -- The source throws on more keys than 32 bits count, which no array has.
  unfoldable pub encode_key_list_document : List ContentId → List ℕ
  unfolding encode_keys write_uint32
  encode_key_list_document keys = write_uint32 (length keys) ++ encode_keys keys

  cons_key : ContentId → Option (List ContentId) → Option (List ContentId)
  cons_key key none = none
  cons_key key (some keys) = if is_content_id key then some (key ∷ keys) else none

  -- The loop over the keys, by the rounds left.
  read_keys : List ℕ → ℕ → ℕ → Option (List ContentId)
  unfolding cons_key
  read_keys bytes offset zero = some []
  read_keys bytes offset (suc rounds) =
      cons_key (encode_hex (slice bytes offset (offset + 32)))
        (read_keys bytes (offset + 32) rounds)

  same_document : List ℕ → Option (List ContentId) → Option (List ContentId)
  unfolding encode_key_list_document
  same_document input none = none
  same_document input (some keys) =
      if text_eq (encode_key_list_document keys) input then some keys else none

  unfoldable pub decode_key_list_document : List ℕ → Option (List ContentId)
  unfolding read_uint32 read_keys same_document
  decode_key_list_document input =
      if not (all_of is_byte input) || ltb (length input) 4
      then none
      else if not (length input == 4 + read_uint32 input 0 * 32)
      then none
      else same_document input (read_keys input 4 (read_uint32 input 0))
