-- ===== src/Graph/Audit/Loads.antt =====
-- What a load of the audit answers, and what it changes.
use foldlab.Base.{
  ℕ, ◌≡◌, inl, inr, refl, ◌∙◌, Bool, Option, none, some, List, ◌∷◌, ok, Bool-cases, Option-cases,
  Result-cases, text_eq, text_eq_iff, arith,
}
use mathlib.Core.Path.{subst}
use foldlab.Node.{ContentId, HexCodec, CasNodeInput}
use foldlab.Backend.{ByteReader}
use foldlab.Store.{CasAddress, verify_node_bytes}
use foldlab.Graph.{resident_bytes, resident_or}
use foldlab.Graph.Audit.{Audit, cached, load_fresh, load_verified, frame_node}
use foldlab.Graph.Audit.Checked.{Serves, Checked, FrameIs, IsCache}

module _ (hex : HexCodec) (address : CasAddress) {S : Type 0} (reader : ByteReader S) (s : S) where
  IsCache-more :
      (id : ContentId) (n : CasNodeInput) (verified : List (ContentId × CasNodeInput))
      → IsCache hex address reader s verified
      → Serves hex address reader s id n
      → IsCache hex address reader s ((id, n) ∷ verified)
  unfolding cached
  IsCache-more id n verified k h other m e = elim (Bool-cases (text_eq id other)) [
    | inl q ↦
        let i : id ≡ other = (text_eq_iff id other).0 q in
        let j : n ≡ m = ground arith in
        subst (λ x. Serves hex address reader s x m) i (subst (Serves hex address reader s id) j h)
    | inr q ↦ k other m (ground arith)
  ]

  module _ (pure : (id : ContentId) → (reader.load_bytes id s).1 ≡ s) where
    resident_bytes-ok :
        (id : ContentId) (is_root : Bool) (bytes : List ℕ) (t : S)
        → resident_bytes reader id is_root s ≡ (ok bytes, t)
        → (t ≡ s) × ((reader.load_bytes id s).0 ≡ ok (some bytes))
    unfolding resident_bytes resident_or
    resident_bytes-ok id is_root bytes t h = elim (Result-cases (reader.load_bytes id s).0) [
      | inr (x, e) ↦ absurd (ground arith)
      | inl (r, e) ↦ elim (Option-cases r) [
        | inl f ↦ absurd (ground arith)
        | inr (b, f) ↦ (ground (arith, pure id), ground arith)
      ]
    ]

    -- A load of the audit changes its cache, and nothing else.
    pub record Loaded (id : ContentId) (a : Audit) (n : CasNodeInput) (b : Audit) (t : S)
        : Type 0 where
      pub still : t ≡ s
      pub serves : Serves hex address reader s id n
      pub verified : List (ContentId × CasNodeInput)
      pub cache : IsCache hex address reader s verified
      pub only : b ≡ record a { verified = verified }

    load_fresh-Loaded :
        (id : ContentId) (is_root : Bool) (known : Option CasNodeInput) (a b : Audit)
        (n : CasNodeInput) (t : S)
        → IsCache hex address reader s a.verified
        → cached id a.verified ≡ known
        → load_fresh hex address reader id is_root known a s ≡ (ok (n, b), t)
        → Loaded id a n b t
    unfolding load_fresh
    load_fresh-Loaded id is_root (some node) a b n t k e h = record {
      still = cc;
      serves = k id n (e ∙ cc);
      verified = a.verified;
      cache = k;
      only = cc;
    }
    load_fresh-Loaded id is_root none a b n t k e h =
        elim (Result-cases (resident_bytes reader id is_root s).0) [
          | inr (x, f) ↦ absurd (ground arith)
          | inl (bytes, f) ↦
              let (same, served) =
                resident_bytes-ok id is_root bytes (resident_bytes reader id is_root s).1
                  (ground arith) in
              elim (Result-cases (verify_node_bytes hex address id bytes)) [
                | inr (x, g) ↦ absurd (ground arith)
                | inl (node, g) ↦
                    let q : node ≡ n = ground arith in
                    let serves : Serves hex address reader s id node = record {
                      bytes = bytes;
                      served = served;
                      verified = g;
                    } in
                    record {
                      still = ground arith;
                      serves = subst (Serves hex address reader s id) q serves;
                      verified = (id, node) ∷ a.verified;
                      cache = IsCache-more id node a.verified k serves;
                      only = ground arith;
                    }
              ]
        ]

    pub load_verified-Loaded :
        (id : ContentId) (is_root : Bool) (a b : Audit) (n : CasNodeInput) (t : S)
        → IsCache hex address reader s a.verified
        → load_verified hex address reader id is_root a s ≡ (ok (n, b), t)
        → Loaded id a n b t
    unfolding load_verified
    load_verified-Loaded id is_root a b n t k h =
        load_fresh-Loaded id is_root (cached id a.verified) a b n t k refl h

    pub frame_node-Loaded :
        (pushed : List ContentId) (id : ContentId) (next : ℕ) (is_root : Bool)
        (node : Option CasNodeInput) (a b : Audit) (n : CasNodeInput) (t : S)
        → IsCache hex address reader s a.verified
        → FrameIs hex address reader s pushed id next node
        → frame_node hex address reader id node is_root a s ≡ (ok (n, b), t)
        → Loaded id a n b t × Checked hex address reader s pushed next n
    unfolding frame_node
    frame_node-Loaded pushed id next is_root none a b n t k f h =
        (load_verified-Loaded id is_root a b n t k h, λ i ref less e. absurd (omega arith))
    frame_node-Loaded pushed id next is_root (some node) a b n t k f h =
        let q : node ≡ n = cc in
        (
          record {
            still = cc;
            serves = subst (Serves hex address reader s id) q f.serves;
            verified = a.verified;
            cache = k;
            only = cc;
          },
          subst (Checked hex address reader s pushed next) q f.checked,
        )
