-- ===== src/GetKey/Signed.antt =====
-- mero-kms/src/handlers/get_key.rs: what the signature of a request covers, and what its quote is bound
-- to.
use mero_tee.Prelude.{
  ℕ, ◌≡◌, refl, inl, inr, true, Option, none, some, List, [], ◌∷◌, ◌++◌, arith, list_eq_iff,
}
use mero_tee.Text.{Str, Bytes, lit, as_bytes, to_be_bytes}
use mero_tee.Errors.{ok, Result-cases}
use mero_tee.Crypto.{Crypto}
use mero_tee.Map.Order.{list_ord}
use mero_tee.Sealed.{request_domain, request_domain_v2, request_binding, request_binding_v2}
use mero_tee.GetKey.{
  Libraries, PublicKey, JsonValue, text, number, GetKeyRequest, verify_peer_signature_for,
  signature_payload, payload_fields, binding_of, hash_peer_id,
}

module _ (c : Crypto) (libs : Libraries) where
  -- The fields that a node signs: its challenge and nonce, the hash of its quote, its peer id, and
  -- the key to seal to and the counter's id where it gives them.
  abbrev pub signed_fields : GetKeyRequest → Bytes → Bytes → Option Bytes → List (Str × JsonValue)
  signed_fields request challenge_nonce quote_bytes seal_to =
      (lit "challengeId", text request.challenge_id)
        ∷ (lit "challengeNonceHex", text (c.hex_encode challenge_nonce))
        ∷ (lit "quoteHashHex", text (c.hex_encode (c.sha256 quote_bytes)))
        ∷ (lit "peerId", text request.peer_id)
        ∷ (elim seal_to [ none ↦ [] | some key ↦ (lit "sealToHex", text (c.hex_encode key)) ∷ [] ])
      ++ (elim request.rollback_node_id [
        | none ↦ []
        | some id ↦ (lit "rollbackNodeId", number id) ∷ []
      ])

  -- The request's key is that of its peer id, and signed those fields.
  pub record IsSigned (request : GetKeyRequest) (challenge_nonce quote_bytes : Bytes)
      (seal_to : Option Bytes) : Type 0 where
    pub key_bytes : Bytes
    pub signature : Bytes
    pub key : PublicKey
    pub payload : Bytes
    pub key_decodes : c.base64_decode request.peer_public_key_b64 ≡ ok key_bytes
    pub signature_decodes : c.base64_decode request.signature_b64 ≡ ok signature
    pub key_reads : libs.decode_public_key key_bytes ≡ ok key
    pub names : key.peer_id ≡ request.peer_id
    pub payload_is :
        libs.payload_to_vec (signed_fields request challenge_nonce quote_bytes seal_to) ≡ ok payload
    pub verifies : key.verify payload signature ≡ true

  pub verify_peer_signature_for-IsSigned :
      (request : GetKeyRequest) (challenge_nonce quote_bytes : Bytes) (seal_to : Option Bytes)
      → verify_peer_signature_for c libs request.peer_id request.peer_public_key_b64
          request.signature_b64 request.challenge_id challenge_nonce quote_bytes seal_to
          request.rollback_node_id
        ≡ ok tt
      → IsSigned request challenge_nonce quote_bytes seal_to
  unfolding verify_peer_signature_for signature_payload payload_fields
  verify_peer_signature_for-IsSigned request challenge_nonce quote_bytes seal_to h =
      elim (Result-cases (c.base64_decode request.peer_public_key_b64)) [
        | inr (e, f) ↦ absurd (ground arith)
        | inl (key_bytes, key_is) ↦ elim (Result-cases (c.base64_decode request.signature_b64)) [
          | inr (e, f) ↦ absurd (ground arith)
          | inl (signature, signature_is) ↦ elim (Result-cases (libs.decode_public_key key_bytes)) [
            | inr (e, f) ↦ absurd (ground arith)
            | inl (key, read) ↦
                elim (Result-cases (
                  libs.payload_to_vec
                    (signed_fields request challenge_nonce quote_bytes seal_to))) [
                      | inr (e, f) ↦ absurd (ground arith)
                      | inl (payload, payload_is) ↦ record {
                        key_bytes = key_bytes;
                        signature = signature;
                        key = key;
                        payload = payload;
                        key_decodes = key_is;
                        signature_decodes = signature_is;
                        key_reads = read;
                        names = (list_eq_iff key.peer_id request.peer_id).0 (ground arith);
                        payload_is = payload_is;
                        verifies = ground arith;
                      }
                    ]
          ]
        ]
      ]

  -- What the quote must be bound to.
  abbrev pub bound_to : Option Bytes → Str → Option ℕ → Bytes
  bound_to none peer_id id = c.sha256 (as_bytes peer_id)
  bound_to (some key) peer_id none = c.sha256 (request_domain ++ (key ++ as_bytes peer_id))
  bound_to (some key) peer_id (some id) =
      c.sha256 (request_domain_v2 ++ (key ++ (as_bytes peer_id ++ to_be_bytes id)))

  pub binding_of-bound_to :
      (seal_to : Option Bytes) (peer_id : Str) (id : Option ℕ)
      → binding_of c libs seal_to peer_id id ≡ bound_to seal_to peer_id id
  unfolding binding_of hash_peer_id request_binding request_binding_v2
  binding_of-bound_to none peer_id id = refl
  binding_of-bound_to (some key) peer_id none = refl
  binding_of-bound_to (some key) peer_id (some id) = refl
