-- ===== src/Blob/Graph/Put/Fed.antt =====
-- What the loops of put keep, and what its end leaves.
use foldlab.Base.{
  ℕ, zero, suc, ◌-◌, ◌≡◌, ◌≤◌, ◌<◌, ◌⊎◌, inl, inr, refl, sym, ap, ◌∙◌, min, ok, Result, List, [],
  ◌∷◌, ◌++◌, length, take, drop, arith, Bool, true, false, Bool-cases, ◌==◌, ◌||◌, ltb,
  length-append, length-take, append-nil, append_assoc, take-append-drop, >>=-eq-ok,
}
use mathlib.Core.Path.{subst}
use foldlab.Node.{HexCodec}
use foldlab.Store.{CasAddress}
use foldlab.Store.Memory.{World}
use foldlab.Blob.{chunk_size}
use foldlab.Blob.Graph.{BlobError}
use foldlab.Blob.Graph.Chunks.{memory_store}
use foldlab.Blob.Graph.Put.{PutState, fill, feed, feed_parts, flush}
use foldlab.Blob.Graph.Put.Shapes.{
  AreFull, IsShaped, full-IsShaped, last-IsShaped, get_elem?-end, concat-end,
}
use foldlab.Blob.Graph.Put.Chunked.{IsChunked, admit-IsChunked}
use foldlab.Blob.Graph.Read.{concat_parts}

module _ (hex : HexCodec) (address : CasAddress) (worded : Bool) where
  -- The consumed bytes are full chunks, which are admitted, and less than a chunk that is pending.
  pub record IsFed (w : World) (st : PutState) (consumed : List ℕ) : Type 0 where
    pub chunks : List (List ℕ)
    pub chunked : IsChunked hex address worded w st chunks
    pub full : AreFull chunks
    pub whole : concat_parts chunks ++ st.pending ≡ consumed
    pub short : length st.pending < chunk_size

  full-end :
      (chunks : List (List ℕ)) (last : List ℕ)
      → AreFull chunks
      → length last ≡ chunk_size
      → AreFull (chunks ++ last ∷ [])
  full-end chunks last full e i chunk h = elim (get_elem?-end chunks last chunk i h) [
    | inl k ↦ full i chunk k
    | inr (j, q) ↦ sym (ap length q) ∙ e
  ]

  fill-IsFed :
      (st next : PutState) (chunks : List (List ℕ)) (consumed : List ℕ) (w v : World)
      → IsChunked hex address worded w st chunks
      → AreFull chunks
      → concat_parts chunks ++ st.pending ≡ consumed
      → length st.pending ≤ chunk_size
      → fill (memory_store hex address worded) st w ≡ (ok next, v)
      → IsFed v next consumed
  unfolding fill
  fill-IsFed st next chunks consumed w v c full whole fits h =
      elim (Bool-cases (length st.pending == chunk_size)) [
        | inr e ↦
            let q : st ≡ next = ground arith in
            let p : w ≡ v = ground arith in
            subst (λ (n : PutState). IsFed v n consumed) q
              (subst (λ u. IsFed u st consumed) p
                (record {
                  chunks = chunks;
                  chunked = c;
                  full = full;
                  whole = whole;
                  short = ground arith;
                }))
        | inl e ↦
            let (c', nothing) =
              admit-IsChunked hex address worded st.pending st next chunks w v c (ground arith) in
            record {
              chunks = chunks ++ st.pending ∷ [];
              chunked = c';
              full = full-end chunks st.pending full (ground arith);
              whole =
                  ap (λ t. concat_parts (chunks ++ st.pending ∷ []) ++ t) nothing
                  ∙ append-nil (concat_parts (chunks ++ st.pending ∷ []))
                  ∙ concat-end chunks st.pending
                  ∙ whole;
              short = omega (arith, ap length nothing);
            }
      ]

  still :
      (st next : PutState) (consumed : List ℕ) (w v : World)
      → IsFed w st consumed
      → ◌≡◌ {A = Result BlobError PutState × World} (ok st, w) (ok next, v)
      → IsFed v next (consumed ++ [])
  still st next consumed w v fed h =
      let q : st ≡ next = cc in
      let p : w ≡ v = cc in
      subst (λ (n : PutState). IsFed v n (consumed ++ [])) q
        (subst (λ u. IsFed u st (consumed ++ [])) p
          (subst (IsFed w st) (sym (append-nil consumed)) fed))

  pub feed-IsFed :
      (rounds : ℕ) (rest : List ℕ) (st next : PutState) (consumed : List ℕ) (w v : World)
      → IsFed w st consumed
      → feed (memory_store hex address worded) rounds rest st w ≡ (ok next, v)
      → IsFed v next (consumed ++ rest)
  unfolding feed
  feed-IsFed zero [] st next consumed w v fed h = still st next consumed w v fed h
  feed-IsFed (suc rounds) [] st next consumed w v fed h = still st next consumed w v fed h
  feed-IsFed zero (byte ∷ rest) st next consumed w v fed h = cc
  feed-IsFed (suc rounds) (byte ∷ rest) st next consumed w v fed h =
      let (mid, u, a, b) =
        >>=-eq-ok (feed (memory_store hex address worded) rounds (drop count (byte ∷ rest)))
          (fill (memory_store hex address worded) filled) w h in
      let one =
        fill-IsFed filled mid fed.chunks (consumed ++ take count (byte ∷ rest)) w u
          (record {
            counted = fed.chunked.counted;
            total = fed.chunked.total;
            held = fed.chunked.held;
          })
          fed.full
          (sym (append_assoc (concat_parts fed.chunks) st.pending (take count (byte ∷ rest)))
            ∙ ap (λ t. t ++ take count (byte ∷ rest)) fed.whole)
          (omega (
            arith,
            length-append st.pending (take count (byte ∷ rest)),
            length-take count (byte ∷ rest),
            fed.short,
          ))
          a in
      subst (IsFed v next)
        (append_assoc consumed (take count (byte ∷ rest)) (drop count (byte ∷ rest))
          ∙ ap (λ t. consumed ++ t) (take-append-drop count (byte ∷ rest)))
        (feed-IsFed rounds (drop count (byte ∷ rest)) mid next
          (consumed ++ take count (byte ∷ rest)) u v one b)
    where
      count : ℕ
      count = min (chunk_size - length st.pending) (length (byte ∷ rest))

      filled : PutState
      filled = record st { pending = st.pending ++ take count (byte ∷ rest) }

  pub feed_parts-IsFed :
      (parts : List (List ℕ)) (st next : PutState) (consumed : List ℕ) (w v : World)
      → IsFed w st consumed
      → feed_parts (memory_store hex address worded) parts st w ≡ (ok next, v)
      → IsFed v next (consumed ++ concat_parts parts)
  unfolding feed_parts concat_parts
  feed_parts-IsFed [] st next consumed w v fed h = still st next consumed w v fed h
  feed_parts-IsFed (part ∷ parts) st next consumed w v fed h =
      let (mid, u, a, b) =
        >>=-eq-ok (feed_parts (memory_store hex address worded) parts)
          (feed (memory_store hex address worded) (length part) part st) w h in
      subst (IsFed v next) (append_assoc consumed part (concat_parts parts)) (
        feed_parts-IsFed parts mid next (consumed ++ part) u v
          (feed-IsFed (length part) part st mid consumed w u fed a) b)

  pub start-IsFed : (w : World) → IsFed w (record { leaves = []; total_bytes = 0; pending = [] }) []
  unfolding concat_parts
  start-IsFed w = record {
    chunks = [];
    chunked = record { counted = refl; total = refl; held = λ i leaf chunk a b. cc };
    full = λ i chunk e. cc;
    whole = refl;
    short = omega arith;
  }

  -- The chunks of a source that is read to its end.
  pub record IsCut (w : World) (st : PutState) (source : List ℕ) : Type 0 where
    pub chunks : List (List ℕ)
    pub chunked : IsChunked hex address worded w st chunks
    pub shaped : IsShaped chunks
    pub whole : concat_parts chunks ≡ source

  pub flush-IsCut :
      (st next : PutState) (source : List ℕ) (w v : World)
      → IsFed w st source
      → flush (memory_store hex address worded) st w ≡ (ok next, v)
      → IsCut v next source
  unfolding flush
  flush-IsCut st next source w v fed h =
      elim (Bool-cases (ltb 0 (length st.pending) || length st.leaves == 0)) [
        | inl e ↦
            let (c, nothing) =
              admit-IsChunked hex address worded st.pending st next fed.chunks w v fed.chunked
                (ground arith) in
            record {
              chunks = fed.chunks ++ st.pending ∷ [];
              chunked = c;
              shaped = last-IsShaped fed.chunks st.pending fed.full fed.short (some_last e);
              whole = concat-end fed.chunks st.pending ∙ fed.whole;
            }
        | inr e ↦
            let q : st ≡ next = ground arith in
            let p : w ≡ v = ground arith in
            subst (λ (n : PutState). IsCut v n source) q
              (subst (λ u. IsCut u st source) p
                (record {
                  chunks = fed.chunks;
                  chunked = fed.chunked;
                  shaped = full-IsShaped fed.chunks fed.full (ground (arith, fed.chunked.counted));
                  whole =
                      sym (append-nil (concat_parts fed.chunks))
                      ∙ ap (λ t. concat_parts fed.chunks ++ t)
                          (sym (none_left st.pending (ground arith)))
                      ∙ fed.whole;
                }))
      ]
    where
      none_left : (bytes : List ℕ) → ltb 0 (length bytes) ≡ false → bytes ≡ []
      none_left [] e = refl
      none_left (b ∷ bytes) e = absurd (ground arith)

      some_last :
          (ltb 0 (length st.pending) || length st.leaves == 0) ≡ true
          → (0 < length st.pending) ⊎ (length fed.chunks ≡ 0)
      some_last e = elim (Bool-cases (ltb 0 (length st.pending))) [
        | inl k ↦ inl (ground arith)
        | inr k ↦ inr (ground (arith, fed.chunked.counted))
      ]
