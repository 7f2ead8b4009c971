-- ===== src/Server/Protocol/WireLaw.antt =====
-- What the wire law accepts.
use foldlab.Base.{
  ℕ, ◌≡◌, ◌≢◌, ◌↔◌, refl, ap, sym, ◌∙◌, true, Option, none, some, List, [], ◌∷◌, ◌++◌, length,
  arith, Option-cases, Bool-cases, inl, inr, ◌==◌,
}
use foldlab.Base.Bits.{bit_or_iff, bit_xor_iff}
use Prim.Native.Nat.{bit_or, bit_xor}
use foldlab.Node.{ContentId, HexCodec}
use foldlab.Wire.{decode_key_list_document}
use foldlab.Server.Protocol.{
  CasServerPolicy, Principal, anonymous, bearer, CasRequest, read_capabilities, query_presence,
  load_node, read_root, upload_node, publish_root, WireFacts, accepted, OperationClass, read, write,
  publish, operation_class, authenticate, authenticate_bearer, authorized, accept, accept_keys,
  decide_node, decide_root, decide_resource, decide_principal, decide, constant_time_loop,
  constant_time_equals, strip_prefix, bearer_prefix, is_text, is_read, is_bearer, resource_path,
  code_units,
}

-- The requests that change the state of the server.
pub data Changes : CasRequest → Type 0 where
  upload_changes : (id : ContentId) (bytes : List ℕ) → Changes (upload_node id bytes)
  publish_changes :
      (root : ContentId) (closure : List ContentId) → Changes (publish_root root closure)

not_read : (s : CasRequest) → Changes s → operation_class s ≢ read
unfolding operation_class
not_read _ (upload_changes id bytes) h = cc
not_read _ (publish_changes root closure) h = cc

loop_iff :
    (a b : List ℕ) (acc : ℕ)
    → length a ≡ length b
    → (constant_time_loop a b acc ≡ 0) ↔ ((acc ≡ 0) × (a ≡ b))
unfolding constant_time_loop
loop_iff [] [] acc h = ground arith
loop_iff (x ∷ a) [] acc h = absurd (omega arith)
loop_iff [] (y ∷ b) acc h = absurd (omega arith)
loop_iff (x ∷ a) (y ∷ b) acc h =
    ground (
      arith,
      loop_iff a b (bit_or acc (bit_xor x y)),
      bit_or_iff acc (bit_xor x y),
      bit_xor_iff x y,
    )

-- An accumulator that is not zero stays so.
loop_stuck : (a b : List ℕ) (acc : ℕ) → acc ≢ 0 → constant_time_loop a b acc ≢ 0
unfolding constant_time_loop
loop_stuck [] [] acc h = h
loop_stuck (x ∷ a) [] acc h =
    loop_stuck a [] (bit_or acc (bit_xor x 0)) (ground (arith, bit_or_iff acc (bit_xor x 0)))
loop_stuck [] (y ∷ b) acc h =
    loop_stuck [] b (bit_or acc (bit_xor 0 y)) (ground (arith, bit_or_iff acc (bit_xor 0 y)))
loop_stuck (x ∷ a) (y ∷ b) acc h =
    loop_stuck a b (bit_or acc (bit_xor x y)) (ground (arith, bit_or_iff acc (bit_xor x y)))

module _ (utf8 : List ℕ → List ℕ) (hex : HexCodec) where
  -- The constant-time comparison holds exactly of texts with the same encoding.
  pub constant_time_equals_iff :
      (left right : List ℕ)
      → (constant_time_equals utf8 hex left right ≡ true) ↔ (utf8 left ≡ utf8 right)
  unfolding constant_time_equals
  constant_time_equals_iff left right =
      elim (Bool-cases (length (utf8 left) == length (utf8 right))) [
        | inl e ↦ ground (
          arith,
          loop_iff (utf8 left) (utf8 right) (bit_xor (length (utf8 left)) (length (utf8 right))),
          bit_xor_iff (length (utf8 left)) (length (utf8 right)),
        )
        | inr e ↦ ground (
          arith,
          loop_stuck (utf8 left) (utf8 right) (bit_xor (length (utf8 left)) (length (utf8 right))),
          bit_xor_iff (length (utf8 left)) (length (utf8 right)),
          ap (λ (t : List ℕ). length t),
        )
      ]

  module _ (policy : CasServerPolicy) where
    accept_sound :
        (p q : Principal) (r s : CasRequest)
        → accept utf8 hex policy p r ≡ accepted q s
        → (p ≡ q) × (authorized utf8 hex policy q (operation_class s) ≡ true)
    unfolding accept
    accept_sound p q r s h = elim (Bool-cases (authorized utf8 hex policy p (operation_class r))) [
      | inl e ↦ ground arith
      | inr e ↦ absurd (ground arith)
    ]

    accept_keys_sound :
        (p q : Principal) (f : List ContentId → CasRequest) (keys : Option (List ContentId))
        (s : CasRequest)
        → accept_keys utf8 hex policy p f keys ≡ accepted q s
        → (p ≡ q) × (authorized utf8 hex policy q (operation_class s) ≡ true)
    unfolding accept_keys
    accept_keys_sound p q f none s h = cc
    accept_keys_sound p q f (some keys) s h = accept_sound p q (f keys) s h

    module _ (facts : WireFacts) (p q : Principal) (s : CasRequest) where
      decide_node_sound :
          (node : Option ContentId)
          → decide_node utf8 hex policy facts p node ≡ accepted q s
          → (p ≡ q) × (authorized utf8 hex policy q (operation_class s) ≡ true)
      unfolding decide_node
      decide_node_sound none h = cc
      decide_node_sound (some id) h =
          ground (
            arith,
            accept_sound p q (load_node id) s,
            accept_sound p q (upload_node id facts.body) s,
          )

      decide_root_sound :
          (root : Option ContentId)
          → decide_root utf8 hex policy facts p root ≡ accepted q s
          → (p ≡ q) × (authorized utf8 hex policy q (operation_class s) ≡ true)
      unfolding decide_root
      decide_root_sound none h = decide_node_sound (resource_path (code_units "cas") facts.path) h
      decide_root_sound (some root) h = ground (
        arith,
        accept_sound p q (read_root root) s,
        accept_keys_sound p q (publish_root root) (decode_key_list_document hex facts.body) s,
      )

      decide_resource_sound :
          decide_resource utf8 hex policy facts p ≡ accepted q s
          → (p ≡ q) × (authorized utf8 hex policy q (operation_class s) ≡ true)
      unfolding decide_resource
      decide_resource_sound h = ground (
        arith,
        accept_sound p q read_capabilities s,
        accept_keys_sound p q query_presence (decode_key_list_document hex facts.body) s,
        decide_root_sound (resource_path (code_units "roots") facts.path),
      )

    -- An exchange is accepted only under the profile, as the principal that its credentials authenticate,
    -- and where that principal is authorized for the class of the operation.
    pub decide_sound :
        (facts : WireFacts) (q : Principal) (s : CasRequest)
        → decide utf8 hex policy facts ≡ accepted q s
        → (is_text facts.profile (code_units "cas-http/0") ≡ true)
          × (authenticate utf8 hex policy facts.authorization ≡ some q)
          × (authorized utf8 hex policy q (operation_class s) ≡ true)
    unfolding decide decide_principal
    decide_sound facts q s h = elim (Bool-cases (is_text facts.profile (code_units "cas-http/0"))) [
      | inr e ↦ absurd (ground arith)
      | inl e ↦ elim (Option-cases (authenticate utf8 hex policy facts.authorization)) [
        | inl a ↦ absurd (ground arith)
        | inr (p, a) ↦
            let (i, k) = decide_resource_sound facts p q s (ground arith) in (e, a ∙ ap some i, k)
      ]
    ]

    strip_prefix-eq :
        (prefix text rest : List ℕ) → strip_prefix prefix text ≡ some rest → text ≡ prefix ++ rest
    unfolding strip_prefix
    strip_prefix-eq [] text rest h = ground arith
    strip_prefix-eq (x ∷ prefix) [] rest h = cc
    strip_prefix-eq (x ∷ prefix) (c ∷ text) rest h =
        ground (arith, strip_prefix-eq prefix text rest)

    bearer_token :
        (credential authorization : List ℕ)
        → policy.credential ≡ some credential
        → authenticate utf8 hex policy (some authorization) ≡ some bearer
        → (token : List ℕ) × (authorization ≡ bearer_prefix ++ token)
          × (utf8 token ≡ utf8 credential)
    unfolding authenticate authenticate_bearer
    bearer_token credential authorization c h =
        elim (Option-cases (strip_prefix bearer_prefix authorization)) [
          | inl e ↦ absurd (ground arith)
          | inr (token, e) ↦ (
            token,
            strip_prefix-eq bearer_prefix authorization token e,
            ground (arith, constant_time_equals_iff token credential),
          )
        ]

    only_bearer :
        (q : Principal) (o : OperationClass) (credential : List ℕ)
        → policy.credential ≡ some credential
        → o ≢ read
        → authorized utf8 hex policy q o ≡ true
        → q ≡ bearer
    unfolding authorized is_bearer is_read
    only_bearer bearer o credential c ne k = refl
    only_bearer anonymous read credential c ne k = absurd (ne refl)
    only_bearer anonymous write credential c ne k = absurd (ground arith)
    only_bearer anonymous publish credential c ne k = absurd (ground arith)

    anonymous_only : ¬ (authenticate utf8 hex policy none ≡ some bearer)
    unfolding authenticate
    anonymous_only h = cc

    -- Where the authority has a credential, an upload or a publication is accepted only with a bearer
    -- token whose encoding is that of the credential.
    pub decide_credentialed :
        (facts : WireFacts) (q : Principal) (s : CasRequest) (credential : List ℕ)
        → policy.credential ≡ some credential
        → Changes s
        → decide utf8 hex policy facts ≡ accepted q s
        → (token : List ℕ) × (facts.authorization ≡ some (bearer_prefix ++ token))
          × (utf8 token ≡ utf8 credential)
    decide_credentialed facts q s credential c o h =
        let (profile, a, k) = decide_sound facts q s h in
        let b = only_bearer q (operation_class s) credential c (not_read s o) k in
        elim (Option-cases facts.authorization) [
          | inl e ↦
              absurd (anonymous_only (ap (authenticate utf8 hex policy) (sym e) ∙ a ∙ ap some b))
          | inr (authorization, e) ↦
              let (token, t, u) =
                bearer_token credential authorization c
                  (ap (authenticate utf8 hex policy) (sym e) ∙ a ∙ ap some b) in
              (token, e ∙ ap some t, u)
        ]
