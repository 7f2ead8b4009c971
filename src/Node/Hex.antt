-- ===== src/Node/Hex.antt =====
-- Lowercase hex text and the codec between it and bytes, which the `effect` package implements
-- (`Encoding.encodeHex` and `Schema.Uint8ArrayFromHex`).
use foldlab.Base.{ℕ, ◌≤◌, ◌<◌, ◌≡◌, ◌⊎◌, List, length, All}

-- The text of an identifier, as code points.
abbrev pub ContentId : Type 0
ContentId = List ℕ

abbrev pub IsByte : ℕ → Type 0
IsByte b = b < 256

abbrev pub IsHexDigit : ℕ → Type 0
IsHexDigit c = ((b'0' ≤ c) × (c ≤ b'9')) ⊎ ((b'a' ≤ c) × (c ≤ b'f'))

-- What the brand `ContentId` promises.
pub record IsContentId (id : ContentId) : Type 0 where
  pub size : length id ≡ 64
  pub digits : All IsHexDigit id

-- The documented behaviour of the hex codec on bytes and on identifiers.
pub record HexCodec : Type 0 where
  pub encode_hex : List ℕ → ContentId
  pub decode_hex : ContentId → List ℕ
  pub encode-IsContentId :
      (bs : List ℕ) → All IsByte bs → length bs ≡ 32 → IsContentId (encode_hex bs)
  pub decode-encode : (bs : List ℕ) → All IsByte bs → decode_hex (encode_hex bs) ≡ bs
  pub encode-decode : (id : ContentId) → IsContentId id → encode_hex (decode_hex id) ≡ id
  pub length-decode : (id : ContentId) → IsContentId id → length (decode_hex id) ≡ 32
  pub decode-IsByte : (id : ContentId) → IsContentId id → All IsByte (decode_hex id)
