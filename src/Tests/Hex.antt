-- ===== src/Tests/Hex.antt =====
-- A hex codec that meets the assumptions on the package's.
use foldlab.Base.{
  ℕ, ◌+◌, ◌-◌, ◌*◌, ◌/◌, ◌%◌, ◌<◌, ◌≡◌, refl, ap, ◌∙◌, List, [], ◌∷◌, length, All, ltb,
  if◌then◌else◌, arith,
}
use mathlib.Core.Path.{ap₂}
use foldlab.Node.{ContentId, IsByte, IsHexDigit, IsContentId, HexCodec}

abbrev pub digit_of : ℕ → ℕ
digit_of n = if ltb n 10 then n + 48 else n + 87

abbrev pub value_of : ℕ → ℕ
value_of c = if ltb c 97 then c - 48 else c - 87

abbrev pub hex_of : List ℕ → ContentId
hex_of [] = []
hex_of (b ∷ bs) = digit_of (b / 16) ∷ digit_of (b % 16) ∷ hex_of bs

abbrev pub bytes_of : ContentId → List ℕ
bytes_of [] = []
bytes_of (c ∷ []) = []
bytes_of (c ∷ d ∷ cs) = (value_of c * 16 + value_of d) ∷ bytes_of cs

value-digit : (n : ℕ) → n < 16 → value_of (digit_of n) ≡ n
value-digit n h = ground arith

digit-IsHexDigit : (n : ℕ) → n < 16 → IsHexDigit (digit_of n)
digit-IsHexDigit n h = ground arith

digit-value : (c : ℕ) → IsHexDigit c → (digit_of (value_of c) ≡ c) × (value_of c < 16)
digit-value c h = ground arith

length-hex_of : (bs : List ℕ) → length (hex_of bs) ≡ 2 * length bs
length-hex_of [] = omega arith
length-hex_of (b ∷ bs) = omega (arith, length-hex_of bs)

hex_of-digits : (bs : List ℕ) → All IsByte bs → All IsHexDigit (hex_of bs)
hex_of-digits [] h = tt
hex_of-digits (b ∷ bs) (h, hs) = (
  digit-IsHexDigit (b / 16) (omega arith),
  (digit-IsHexDigit (b % 16) (omega arith), hex_of-digits bs hs),
)

pub bytes_of-hex_of : (bs : List ℕ) → All IsByte bs → bytes_of (hex_of bs) ≡ bs
bytes_of-hex_of [] h = refl
bytes_of-hex_of (b ∷ bs) (h, hs) =
    ap₂ ◌∷◌ (omega (arith, value-digit (b / 16) (omega arith), value-digit (b % 16) (omega arith)))
      (bytes_of-hex_of bs hs)

pub hex_of-bytes_of :
    (k : ℕ) (id : ContentId) → length id ≡ 2 * k → All IsHexDigit id → hex_of (bytes_of id) ≡ id
hex_of-bytes_of k [] e h = refl
hex_of-bytes_of k (c ∷ []) e h = absurd (omega arith)
hex_of-bytes_of k (c ∷ d ∷ cs) e (hc, (hd, hs)) =
    let (ec, bc) = digit-value c hc in
    let (ed, bd) = digit-value d hd in
    ap₂ ◌∷◌ (ap digit_of (omega arith) ∙ ec)
      (ap₂ ◌∷◌ (ap digit_of (omega arith) ∙ ed) (hex_of-bytes_of (k - 1) cs (omega arith) hs))

pub length-bytes_of : (k : ℕ) (id : ContentId) → length id ≡ 2 * k → length (bytes_of id) ≡ k
length-bytes_of k [] e = omega arith
length-bytes_of k (c ∷ []) e = absurd (omega arith)
length-bytes_of k (c ∷ d ∷ cs) e = omega (arith, length-bytes_of (k - 1) cs (omega arith))

pub bytes_of-IsByte : (id : ContentId) → All IsHexDigit id → All IsByte (bytes_of id)
bytes_of-IsByte [] h = tt
bytes_of-IsByte (c ∷ []) h = tt
bytes_of-IsByte (c ∷ d ∷ cs) (hc, (hd, hs)) =
    let (ec, bc) = digit-value c hc in
    let (ed, bd) = digit-value d hd in (omega arith, bytes_of-IsByte cs hs)

pub hex_of-IsContentId : (bs : List ℕ) → All IsByte bs → length bs ≡ 32 → IsContentId (hex_of bs)
hex_of-IsContentId bs h e = record {
  size = omega (arith, length-hex_of bs);
  digits = hex_of-digits bs h;
}

abbrev pub lower_hex : HexCodec
lower_hex = record {
  encode_hex = hex_of;
  decode_hex = bytes_of;
  encode-IsContentId = hex_of-IsContentId;
  decode-encode = bytes_of-hex_of;
  encode-decode = λ id h. hex_of-bytes_of 32 id h.size h.digits;
  length-decode = λ id h. length-bytes_of 32 id h.size;
  decode-IsByte = λ id h. bytes_of-IsByte id h.digits;
}
