-- ===== src/Node.antt =====
-- library/effects/src/cas/Node.ts: the node boundary shapes, their schema checks, and the errors of
-- the store. A content identifier is its hex text, and text is a list of code points. The hex codec
-- is the `effect` package's, so it is a parameter with the behaviour that its documentation states.
mod Hex
pub mod Checks
pub use Hex.*
use foldlab.Base.{
  ℕ, ◌≤◌, ◌<◌, ◌≡◌, ◌↔◌, ◌&&◌, ◌||◌, Bool, true, List, [], ◌∷◌, length, All, ltb, leb, ◌==◌, arith,
}

pub record NodeKind : Type 0 where
  pub version : ℕ
  pub tag : ℕ

pub record CasReference : Type 0 where
  pub id : ContentId
  pub expected_tag : ℕ

pub record CasNodeInput : Type 0 where
  pub kind : NodeKind
  pub payload : List ℕ
  pub refs : List CasReference

-- The refusals of the store law. The text of a reason is not modelled, its occasion is.
pub data FailureReason : Type 0 where
  backend_failed : ContentId → FailureReason
  digest_failed : FailureReason
  invalid_input : FailureReason
  collision_at : ContentId → FailureReason
  refused_own_encoding : FailureReason
  receipt_not_written : ContentId → FailureReason

pub data CasError : Type 0 where
  address_mismatch : ContentId → ContentId → CasError
  non_canonical_bytes : ContentId → CasError
  unknown_kind : ℕ → ℕ → CasError
  dangling_reference : ContentId → CasError
  wrong_kind_reference : ContentId → ℕ → ℕ → CasError
  content_not_found : ContentId → CasError
  store_failure : FailureReason → CasError

abbrev pub max_uint32 : ℕ
max_uint32 = 0xffff_ffff

module _ {A : Type 0} (p : A → Bool) where
  unfoldable pub all_of : List A → Bool
  all_of [] = true
  all_of (x ∷ xs) = p x && all_of xs

  pub all_of_iff : (xs : List A) → (all_of xs ≡ true) ↔ All (λ x. p x ≡ true) xs
  unfolding all_of
  all_of_iff [] = (λ h. tt, λ h. ground arith)
  all_of_iff (x ∷ xs) = (
    λ h. (ground arith, (all_of_iff xs).0 (ground arith)),
    λ h. ground (arith, all_of_iff xs, h.0, (all_of_iff xs).1 h.1),
  )

-- `Byte`.
abbrev pub is_byte : ℕ → Bool
is_byte b = ltb b 256

-- `/^[0-9a-f]{64}$/u`.
abbrev pub is_hex_digit : ℕ → Bool
is_hex_digit c = leb b'0' c && leb c b'9' || leb b'a' c && leb c b'f'

pub is_content_id : ContentId → Bool
is_content_id id = length id == 64 && all_of is_hex_digit id

pub is_reference : CasReference → Bool
unfolding is_content_id
is_reference r = is_content_id r.id && is_byte r.expected_tag

-- The checks of the `CasNodeInput` schema. That every entry of the payload is a byte is what
-- `Schema.Uint8Array` asks of a list of numbers.
unfoldable pub is_node_input : CasNodeInput → Bool
unfolding is_reference
is_node_input n =
    is_byte n.kind.version
    && is_byte n.kind.tag
    && all_of is_byte n.payload
    && leb (length n.payload) max_uint32
    && all_of is_reference n.refs
    && leb (length n.refs) max_uint32
