-- ===== src/Store/Memory/Receipts.antt =====
-- What a put writes besides the entry: the errors leave the world alone, and the word log holds one
-- receipt for each fresh admission.
use foldlab.Base.{
  ℕ, suc, ◌+◌, ◌≡◌, refl, ap, ok, err, Result, some, List, [], ◌∷◌, ◌++◌, length, arith, Bool, true,
  false, text_eq_iff, text_eq_refl, if◌then◌else◌,
}
use foldlab.Node.{ContentId, HexCodec, CasNodeInput, CasError}
use foldlab.Codec.{encode_cas_node}
use foldlab.Backend.{lookup}
use foldlab.WordLog.{WordLogEntry, memory_append}
use foldlab.Store.{CasAddress, PutOutcome, fresh, duplicate}
use foldlab.Store.Memory.{World, memory_put_outcome}
use foldlab.Store.Memory.Steps.{PutStep, admitted, joined, refused, put_step}
use foldlab.Store.Memory.Laws.{lookup-written}

module _ (hex : HexCodec) (address : CasAddress) (worded : Bool) (n : CasNodeInput)
    (w : World) where
  error_step :
      (x : CasError) {p : Result CasError PutOutcome × World}
      → p.0 ≡ err x
      → PutStep hex address worded n w p
      → p.1 ≡ w
  error_step x h (admitted id at absent e) = cc (ap (λ q. q.0) e)
  error_step x h (joined id at held e) = ap (λ q. q.1) e
  error_step x h (refused y e) = ap (λ q. q.1) e

  -- A put that is refused changes nothing: no entry, no receipt.
  pub put-error :
      (x : CasError)
      → (memory_put_outcome hex address worded n w).0 ≡ err x
      → (memory_put_outcome hex address worded n w).1 ≡ w
  put-error x h = error_step x h (put_step hex address worded n w)

-- The receipts from mark `k` on: dense marks, and addresses that are resident.
abbrev pub Receipted : List (ContentId × List ℕ) → ℕ → List WordLogEntry → Type 0
Receipted nodes k [] = Unit
Receipted nodes k (e ∷ es) =
    (e.seq ≡ k)
    × ((bytes : List ℕ) × (lookup e.address nodes ≡ some bytes))
    × Receipted nodes (suc k) es

Receipted-keeps :
    (old new : List (ContentId × List ℕ))
    → ((id : ContentId) (b : List ℕ) → lookup id old ≡ some b → lookup id new ≡ some b)
    → (k : ℕ) (es : List WordLogEntry) → Receipted old k es
    → Receipted new k es
Receipted-keeps old new f k [] h = tt
Receipted-keeps old new f k (e ∷ es) (s, (b, h), hs) =
    (s, (b, f e.address b h), Receipted-keeps old new f (suc k) es hs)

Receipted-append :
    (nodes : List (ContentId × List ℕ)) (k : ℕ) (es : List WordLogEntry) (e : WordLogEntry)
    → Receipted nodes k es
    → e.seq ≡ k + length es
    → ((b : List ℕ) × (lookup e.address nodes ≡ some b))
    → Receipted nodes k (es ++ e ∷ [])
Receipted-append nodes k [] e h s r = (omega arith, r, tt)
Receipted-append nodes k (x ∷ es) e (q, b, hs) s r =
    (q, b, Receipted-append nodes (suc k) es e hs (omega arith) r)

module _ (hex : HexCodec) (address : CasAddress) (worded : Bool) (n : CasNodeInput)
    (w : World) where
  -- What the word is after a put that answers so: one more receipt after a fresh admission, and the
  -- same word after a duplicate or a refusal.
  abbrev pub word_after : Result CasError PutOutcome → List WordLogEntry
  word_after (ok (fresh id)) =
      if worded
      then memory_append
          (record { address = id; at = w.now; size = length n.payload; tag = n.kind.tag }) w.log
      else w.log
  word_after (ok (duplicate id)) = w.log
  word_after (err x) = w.log

  Receipted-step :
      {p : Result CasError PutOutcome × World}
      → memory_put_outcome hex address worded n w ≡ p
      → Receipted w.plane.nodes 0 w.log
      → PutStep hex address worded n w p
      → Receipted p.1.plane.nodes 0 p.1.log
  Receipted-step q r (admitted id at absent e) = rw e (with_log worded)
    where
      nodes : List (ContentId × List ℕ)
      nodes = w.plane.nodes ++ (id, encode_cas_node hex n) ∷ []

      kept :
          (k : ContentId) (b : List ℕ) → lookup k w.plane.nodes ≡ some b → lookup k nodes ≡ some b
      kept k b h =
          ground (arith, lookup-written hex address worded n w id k absent, text_eq_iff id k)

      here : lookup id nodes ≡ some (encode_cas_node hex n)
      here = ground (arith, lookup-written hex address worded n w id id absent, text_eq_refl id)

      before : Receipted nodes 0 w.log
      before = Receipted-keeps w.plane.nodes nodes kept 0 w.log r

      with_log :
          (b : Bool)
          → Receipted nodes 0 (
              if b
              then memory_append
                  (record { address = id; at = w.now; size = length n.payload; tag = n.kind.tag })
                  w.log
              else w.log)
      with_log false = before
      with_log true =
          unfold memory_append in
          Receipted-append nodes 0 w.log _ before (omega arith) (encode_cas_node hex n, here)
  Receipted-step q r (joined id at held e) = rw e r
  Receipted-step q r (refused y e) = rw e r

  -- Where the marks of the word are dense from 0 and every receipt is of resident content, they are
  -- so after a put, whatever it answers.
  pub put-Receipted :
      Receipted w.plane.nodes 0 w.log
      → Receipted
          (memory_put_outcome hex address worded n w).1.plane.nodes
          0
          (memory_put_outcome hex address worded n w).1.log
  put-Receipted r = Receipted-step refl r (put_step hex address worded n w)
