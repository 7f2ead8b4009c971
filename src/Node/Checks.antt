-- ===== src/Node/Checks.antt =====
-- What a node that passes the schema checks satisfies.
use foldlab.Base.{ℕ, ◌≤◌, ◌≡◌, ◌↔◌, true, List, [], ◌∷◌, length, All, ltb→lt, lt→ltb, arith}
use foldlab.Node.{
  ContentId, IsByte, IsHexDigit, IsContentId, CasReference, CasNodeInput, max_uint32, all_of,
  all_of_iff, is_byte, is_hex_digit, is_content_id, is_reference, is_node_input,
}

abbrev pub IsReference : CasReference → Type 0
IsReference r = IsContentId r.id × IsByte r.expected_tag

-- What the `CasNodeInput` schema promises.
pub record IsNode (n : CasNodeInput) : Type 0 where
  pub version : IsByte n.kind.version
  pub tag : IsByte n.kind.tag
  pub payload : All IsByte n.payload
  pub payload_size : length n.payload ≤ max_uint32
  pub refs : All IsReference n.refs
  pub refs_size : length n.refs ≤ max_uint32

module _ {A : Type 0} {P Q : A → Type 0} (f : (a : A) → P a → Q a) where
  pub All-map : (xs : List A) → All P xs → All Q xs
  All-map [] h = tt
  All-map (x ∷ xs) (h, hs) = (f x h, All-map xs hs)

is_hex_digit_iff : (c : ℕ) → (is_hex_digit c ≡ true) ↔ IsHexDigit c
is_hex_digit_iff c = ground arith

All-hex_iff : (id : ContentId) → (all_of is_hex_digit id ≡ true) ↔ All IsHexDigit id
All-hex_iff id = (
  λ h. All-map (λ c. (is_hex_digit_iff c).0) id ((all_of_iff is_hex_digit id).0 h),
  λ h. (all_of_iff is_hex_digit id).1 (All-map (λ c. (is_hex_digit_iff c).1) id h),
)

pub All-bytes_iff : (bs : List ℕ) → (all_of is_byte bs ≡ true) ↔ All IsByte bs
All-bytes_iff bs = (
  λ h. All-map (λ c. ltb→lt c 256) bs ((all_of_iff is_byte bs).0 h),
  λ h. (all_of_iff is_byte bs).1 (All-map (λ c. lt→ltb c 256) bs h),
)

pub is_content_id_sound : (id : ContentId) → is_content_id id ≡ true → IsContentId id
unfolding is_content_id
is_content_id_sound id h = record {
  size = ground arith;
  digits = (All-hex_iff id).0 (ground arith);
}

pub is_content_id_complete : (id : ContentId) → IsContentId id → is_content_id id ≡ true
unfolding is_content_id
is_content_id_complete id h = ground (arith, (All-hex_iff id).1 h.digits)

is_reference_sound : (r : CasReference) → is_reference r ≡ true → IsReference r
unfolding is_reference
is_reference_sound r h = (is_content_id_sound r.id (ground arith), ground arith)

is_reference_complete : (r : CasReference) → IsReference r → is_reference r ≡ true
unfolding is_reference
is_reference_complete r h = ground (arith, is_content_id_complete r.id h.0)

All-references_iff : (rs : List CasReference) → (all_of is_reference rs ≡ true) ↔ All IsReference rs
All-references_iff rs = (
  λ h. All-map is_reference_sound rs ((all_of_iff is_reference rs).0 h),
  λ h. (all_of_iff is_reference rs).1 (All-map is_reference_complete rs h),
)

pub is_node_input_sound : (n : CasNodeInput) → is_node_input n ≡ true → IsNode n
unfolding is_node_input
is_node_input_sound n h = record {
  version = ground arith;
  tag = ground arith;
  payload = (All-bytes_iff n.payload).0 (ground arith);
  payload_size = ground arith;
  refs = (All-references_iff n.refs).0 (ground arith);
  refs_size = ground arith;
}

pub is_node_input_complete : (n : CasNodeInput) → IsNode n → is_node_input n ≡ true
unfolding is_node_input
is_node_input_complete n h =
    ground (arith, (All-bytes_iff n.payload).1 h.payload, (All-references_iff n.refs).1 h.refs)
