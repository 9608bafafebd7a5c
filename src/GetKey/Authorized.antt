-- ===== src/GetKey/Authorized.antt =====
-- mero-kms/src/handlers/get_key.rs, `authorize`: what a request that was authorized has passed.
use mero_tee.Prelude.{ℕ, ◌≡◌, sym, Option, none, some, take, drop, arith, Option-cases, inl, inr}
use mero_tee.Text.{Str, Bytes, from_be_bytes}
use mero_tee.Errors.{ok, Result-cases}
use mero_tee.Crypto.{Crypto}
use mero_tee.Backend.{challenge_key}
use mero_tee.Policy.{Role}
use mero_tee.Challenge.{decode_id, open_id}
use mero_tee.State.{AppState}
use mero_tee.GetKey.{
  Libraries, Request, authorize, open_challenge, decode_seal_to, verify_peer_signature_for,
  verify_and_enforce_attestation, binding_of,
}

module _ (c : Crypto) (libs : Libraries) where
  -- The expiry that a challenge id carries.
  unfoldable pub expiry_of : Str → ℕ
  expiry_of challenge_id = elim (decode_id c challenge_id) [
    | none ↦ 0
    | some id ↦ from_be_bytes (drop 16 (take 24 id))
  ]

  pub open_id-expiry :
      (key : Bytes) (challenge_id peer_id : Str) (moment ttl : ℕ) (n : Bytes) (e : ℕ)
      → open_id c key challenge_id peer_id moment ttl ≡ ok (n, e)
      → e ≡ expiry_of challenge_id
  unfolding open_id expiry_of
  open_id-expiry key challenge_id peer_id moment ttl n e h =
      elim (Option-cases (decode_id c challenge_id)) [
        | inl malformed ↦ absurd (ground arith)
        | inr (id, found) ↦ ground arith
      ]

  -- A request that was authorized decodes, its challenge opens to the nonce, its signature
  -- verifies over that nonce and the quote, and its quote verifies to the role.
  pub record IsAuthorized (s : AppState) (r : Request) (challenge_nonce : Bytes) (expires_at : ℕ)
      (seal_to : Option Bytes) (role : Role) : Type 0 where
    pub quote_bytes : Bytes
    pub quote_decodes : c.base64_decode r.request.quote_b64 ≡ ok quote_bytes
    pub seal_decodes : decode_seal_to c libs r.request.seal_to_b64 ≡ ok seal_to
    pub opened : open_challenge c libs s r.opened_at r.request ≡ ok (challenge_nonce, expires_at)
    pub signed :
        verify_peer_signature_for c libs r.request.peer_id r.request.peer_public_key_b64
          r.request.signature_b64 r.request.challenge_id challenge_nonce quote_bytes seal_to
          r.request.rollback_node_id
        ≡ ok tt
    pub attested :
        verify_and_enforce_attestation c libs s.config quote_bytes challenge_nonce
          (binding_of c libs seal_to r.request.peer_id r.request.rollback_node_id)
        ≡ ok role

  pub authorize-inv :
      (s : AppState) (r : Request) (challenge_nonce : Bytes) (expires_at : ℕ)
      (seal_to : Option Bytes) (role : Role)
      → authorize c libs s r ≡ ok (challenge_nonce, expires_at, seal_to, role)
      → IsAuthorized s r challenge_nonce expires_at seal_to role
  unfolding authorize
  authorize-inv s r challenge_nonce expires_at seal_to role h =
      elim (Result-cases (c.base64_decode r.request.quote_b64)) [
        | inr (x, e) ↦ absurd (ground arith)
        | inl (quote_bytes, decoded) ↦
            elim (Result-cases (decode_seal_to c libs r.request.seal_to_b64)) [
              | inr (x, e) ↦ absurd (ground arith)
              | inl (seal, sealed) ↦
                  elim (Result-cases (open_challenge c libs s r.opened_at r.request)) [
                    | inr (x, e) ↦ absurd (ground arith)
                    | inl (o, opened) ↦
                        elim (Result-cases (
                          verify_and_enforce_attestation c libs s.config quote_bytes o.0 (
                            binding_of c libs seal r.request.peer_id r.request.rollback_node_id))) [
                              | inr (x, e) ↦ absurd (ground arith)
                              | inl (found, attested) ↦
                                  elim (Result-cases (
                                    verify_peer_signature_for c libs r.request.peer_id
                                      r.request.peer_public_key_b64 r.request.signature_b64
                                      r.request.challenge_id o.0 quote_bytes seal
                                      r.request.rollback_node_id)) [
                                        | inr (x, e) ↦ absurd (ground arith)
                                        | inl (u, signed) ↦
                                            let same_seal : seal ≡ seal_to = ground arith in
                                            let same_nonce : o.0 ≡ challenge_nonce = ground arith in
                                            let same_role : found ≡ role = ground arith in
                                            record {
                                              quote_bytes = quote_bytes;
                                              quote_decodes = decoded;
                                              seal_decodes = ground arith;
                                              opened = ground arith;
                                              signed = rw (sym same_seal, sym same_nonce) signed;
                                              attested =
                                                  rw (sym same_seal, sym same_nonce, sym same_role)
                                                    attested;
                                            }
                                      ]
                            ]
                  ]
            ]
      ]

  pub authorize-expiry :
      (s : AppState) (r : Request) (challenge_nonce : Bytes) (expires_at : ℕ)
      (seal_to : Option Bytes) (role : Role)
      → authorize c libs s r ≡ ok (challenge_nonce, expires_at, seal_to, role)
      → expires_at ≡ expiry_of r.request.challenge_id
  unfolding open_challenge
  authorize-expiry s r challenge_nonce expires_at seal_to role h =
      let opened = (authorize-inv s r challenge_nonce expires_at seal_to role h).opened in
      elim (Result-cases r.opened_at) [
        | inr (x, e) ↦ absurd (ground arith)
        | inl (moment, e) ↦ elim (Result-cases (challenge_key c s.backend)) [
          | inr (x, f) ↦ absurd (ground arith)
          | inl (key, f) ↦
              open_id-expiry key r.request.challenge_id r.request.peer_id moment
                s.config.challenge_ttl_secs challenge_nonce expires_at (ground arith)
        ]
      ]
