-- ===== src/Codec/Reading.antt =====
-- The 32-bit fields and the reference table, written and read back.
use foldlab.Base.{
  ℕ, zero, suc, ◌+◌, ◌*◌, ◌^◌, ◌≤◌, ◌<◌, ◌≡◌, refl, sym, ap, ◌∙◌, List, [], ◌∷◌, ◌++◌, append_assoc,
  length, get_or, take, drop, slice, length-append, drop_at, slice_at, get_or-drop, All, All-drop,
  All-take, length-drop, drop-cons, drop_end, length-slice, slice-append-drop, arith,
}
use mathlib.Core.Path.{ap₂}
use foldlab.Node.{IsByte, ContentId, HexCodec, CasReference}
use foldlab.Node.Checks.{IsReference}
use foldlab.Codec.{write_nat32, read_nat32, encode_ref, encode_refs, read_refs}

pub length-write_nat32 : (v : ℕ) → length (write_nat32 v) ≡ 4
unfolding write_nat32
length-write_nat32 v = refl

pub read_nat32-drop : (off : ℕ) (bs : List ℕ) → read_nat32 bs off ≡ read_nat32 (drop off bs) 0
unfolding read_nat32
read_nat32-drop off bs = omega (
  arith,
  get_or-drop off 0 off bs 0,
  get_or-drop off 1 (off + 1) bs 0,
  get_or-drop off 2 (off + 2) bs 0,
  get_or-drop off 3 (off + 3) bs 0,
)

pub read-write_nat32 :
    (v : ℕ) (rest : List ℕ) → v < 2 ^ 32 → read_nat32 (write_nat32 v ++ rest) 0 ≡ v
unfolding read_nat32 write_nat32
read-write_nat32 v rest h = omega arith

-- A field in the middle of an array.
pub read_nat32_at :
    (v off : ℕ) (bs rest : List ℕ)
    → v < 2 ^ 32
    → drop off bs ≡ write_nat32 v ++ rest
    → read_nat32 bs off ≡ v
read_nat32_at v off bs rest h e = read_nat32-drop off bs ∙ rw e (read-write_nat32 v rest h)

write_nat32_four :
    (zs : List ℕ) → 4 ≤ length zs → All IsByte zs → write_nat32 (read_nat32 zs 0) ≡ take 4 zs
unfolding write_nat32 read_nat32
write_nat32_four (a ∷ b ∷ c ∷ d ∷ zs) h k = ground arith
write_nat32_four _ h k = absurd (omega arith)

-- Four bytes are the encoding of the number that they are read as.
pub write-read_nat32 :
    (off : ℕ) (bs : List ℕ)
    → off + 4 ≤ length bs
    → All IsByte bs
    → write_nat32 (read_nat32 bs off) ≡ take 4 (drop off bs)
write-read_nat32 off bs h k =
    rw read_nat32-drop (
      write_nat32_four (drop off bs) (omega (arith, length-drop off bs)) (All-drop IsByte off bs k))

pub get_or-IsByte : (bs : List ℕ) (i : ℕ) → All IsByte bs → get_or bs i 0 < 256
get_or-IsByte [] i k = omega arith
get_or-IsByte (b ∷ bs) zero k = k.0
get_or-IsByte (b ∷ bs) (suc i) k = get_or-IsByte bs i k.1

pub read_nat32-lt : (off : ℕ) (bs : List ℕ) → All IsByte bs → read_nat32 bs off < 2 ^ 32
unfolding read_nat32
read_nat32-lt off bs k = omega (
  arith,
  get_or-IsByte bs off k,
  get_or-IsByte bs (off + 1) k,
  get_or-IsByte bs (off + 2) k,
  get_or-IsByte bs (off + 3) k,
)

module _ (hex : HexCodec) where
  open hex use {
    encode_hex, decode_hex, encode-IsContentId, decode-encode, encode-decode, length-decode,
  }

  pub length-encode_refs :
      (refs : List CasReference)
      → All IsReference refs
      → length (encode_refs hex refs) ≡ length refs * 33
  unfolding encode_refs encode_ref
  length-encode_refs [] h = omega arith
  length-encode_refs (r ∷ refs) (h, hs) = omega (
    arith,
    length-append (decode_hex r.id) (encode_refs hex refs),
    length-decode r.id h.0,
    length-encode_refs refs hs,
  )

  -- The table is read back, wherever it stands.
  pub read_refs-encode_refs :
      (refs : List CasReference) (bs rest : List ℕ) (off : ℕ)
      → All IsReference refs
      → drop off bs ≡ encode_refs hex refs ++ rest
      → read_refs hex bs off (length refs) ≡ refs
  unfolding read_refs encode_refs encode_ref
  read_refs-encode_refs [] bs rest off h e = refl
  read_refs-encode_refs (r ∷ refs) bs rest off (h, hs) e =
      ap₂ ◌∷◌ (ap₂ (λ (a : ContentId) (t : ℕ). record { id = a; expected_tag = t }) address tag) (
        read_refs-encode_refs refs bs rest (off + 33) hs (
          drop_at (off + 1) (off + 33) bs (decode_hex r.id) _ body
            (omega (arith, length-decode r.id h.0))))
    where
      here : drop off bs ≡ r.expected_tag ∷ (decode_hex r.id ++ (encode_refs hex refs ++ rest))
      here = e ∙ ap₂ ◌∷◌ (omega arith) (append_assoc (decode_hex r.id) (encode_refs hex refs) rest)

      body : drop (off + 1) bs ≡ decode_hex r.id ++ (encode_refs hex refs ++ rest)
      body = drop_at off (off + 1) bs (r.expected_tag ∷ []) _ here refl

      address : encode_hex (slice bs (off + 1) (off + 33)) ≡ r.id
      address =
          ap encode_hex (
            slice_at (off + 1) (off + 33) bs (decode_hex r.id) _ body
              (omega (arith, length-decode r.id h.0)))
          ∙ encode-decode r.id h.0

      tag : get_or bs off 0 ≡ r.expected_tag
      tag = sym (get_or-drop off 0 off bs 0 (omega arith)) ∙ ap (λ (t : List ℕ). get_or t 0 0) here

  pub length-read_refs : (bs : List ℕ) (off n : ℕ) → length (read_refs hex bs off n) ≡ n
  unfolding read_refs
  length-read_refs bs off zero = refl
  length-read_refs bs off (suc n) = ap suc (length-read_refs bs (off + 33) n)

  pub read_refs-IsReference :
      (bs : List ℕ) (off n : ℕ)
      → All IsByte bs
      → off + n * 33 ≤ length bs
      → All IsReference (read_refs hex bs off n)
  unfolding read_refs
  read_refs-IsReference bs off zero k h = tt
  read_refs-IsReference bs off (suc n) k h = (
    (
      encode-IsContentId (slice bs (off + 1) (off + 33))
          (All-take IsByte _ (drop (off + 1) bs) (All-drop IsByte (off + 1) bs k))
          (omega (arith, length-slice (off + 1) (off + 33) bs)),
      get_or-IsByte bs off k,
    ),
    read_refs-IsReference bs (off + 33) n k (omega arith),
  )

  -- What was read as a table is the encoding of the table.
  pub encode_refs-read_refs :
      (bs : List ℕ) (off n : ℕ)
      → All IsByte bs
      → off + n * 33 ≡ length bs
      → encode_refs hex (read_refs hex bs off n) ≡ drop off bs
  unfolding read_refs encode_refs encode_ref
  encode_refs-read_refs bs off zero k h = sym (drop_end off bs (omega arith))
  encode_refs-read_refs bs off (suc n) k h =
      rw
        (
          decode-encode (slice bs (off + 1) (off + 33))
              (All-take IsByte _ (drop (off + 1) bs) (All-drop IsByte (off + 1) bs k)),
          encode_refs-read_refs bs (off + 33) n k (omega arith),
          slice-append-drop (off + 1) (off + 33) bs (omega arith),
          drop-cons off bs 0 (omega arith),
        )
        (ap (λ t. t ∷ drop (off + 1) bs) (omega (arith, get_or-IsByte bs off k)))
