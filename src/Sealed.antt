-- ===== src/Sealed.antt =====
-- mero-kms/src/sealed.rs: the transport key, what quotes commit to, and the sealing of a released
-- key. Random nonces are arguments. An HKDF output of 32 bytes is never too long to expand.
use mero_tee.Prelude.{ℕ, ◌++◌, all, ◌==◌, if◌then◌else◌}
use mero_tee.Text.{Str, Bytes, lit, as_bytes, to_be_bytes}
use mero_tee.Errors.{
  Service, ServiceError, ok, err, ok_or, ◌>>=◌, invalid_attestation_request, key_derivation_failed,
}
use mero_tee.Crypto.{Crypto}
use mero_tee.Backend.{TdxBackend, derive, transport_key_path}

unfoldable pub attest_domain : Bytes
attest_domain = lit "mero-kms/attest-transport-key/v1"

unfoldable pub request_domain : Bytes
request_domain = lit "mero-kms/sealed-get-key/v1"

unfoldable pub seal_domain : Bytes
seal_domain = lit "mero-kms/sealed-key/v1"

unfoldable pub attest_domain_v2 : Bytes
attest_domain_v2 = lit "mero-kms/attest-transport-key/v2"

unfoldable pub request_domain_v2 : Bytes
request_domain_v2 = lit "mero-kms/sealed-get-key/v2"

unfoldable pub seal_domain_v2 : Bytes
seal_domain_v2 = lit "mero-kms/sealed-key/v2"

-- The list joined by commas is its one member.
unfoldable pub capabilities : Str
capabilities = lit "rollback/v1"

pub record TransportKey : Type 0 where
  pub secret : Bytes
  pub public : Bytes

abbrev pub low_order_point : ServiceError
low_order_point = invalid_attestation_request (lit "sealToB64 is a low-order point")

module _ (c : Crypto) where
  unfoldable pub from_secret : Bytes → TransportKey
  from_secret secret = record { secret = secret; public = c.mul_base_clamped secret }

  -- `TdxBackend::transport_key`
  unfoldable pub transport_key : TdxBackend → Service TransportKey
  unfolding from_secret
  transport_key b = do secret ← derive c b transport_key_path; ok (from_secret secret)

  unfoldable pub attest_binding : Bytes → Bytes → Bytes
  attest_binding binding transport_public =
      c.sha256 (attest_domain ++ (binding ++ transport_public))

  unfoldable pub attest_binding_v2 : Bytes → Bytes → Bytes
  attest_binding_v2 binding transport_public =
      c.sha256 (attest_domain_v2 ++ (binding ++ (transport_public ++ as_bytes capabilities)))

  unfoldable pub request_binding : Bytes → Str → Bytes
  request_binding seal_to peer_id = c.sha256 (request_domain ++ (seal_to ++ as_bytes peer_id))

  unfoldable pub request_binding_v2 : Bytes → Str → ℕ → Bytes
  request_binding_v2 seal_to peer_id node_id =
      c.sha256 (request_domain_v2 ++ (seal_to ++ (as_bytes peer_id ++ to_be_bytes node_id)))

  -- The AES key of a sealed release.
  unfoldable pub seal_key : Bytes → TransportKey → Bytes → Bytes → Bytes → Str → Bytes
  seal_key domain transport seal_to shared challenge_nonce peer_id =
      c.hkdf challenge_nonce shared (domain ++ (transport.public ++ (seal_to ++ as_bytes peer_id)))

  unfoldable pub seal_bytes :
      Bytes → TransportKey → Bytes → Bytes → Str → Bytes → Bytes → Service Bytes
  unfolding seal_key
  seal_bytes domain transport seal_to challenge_nonce peer_id nonce plaintext =
      let shared = c.mul_clamped seal_to transport.secret in
      if all (λ byte. byte == 0) shared
      then err low_order_point
      else ok_or
          (c.aead_seal (seal_key domain transport seal_to shared challenge_nonce peer_id) nonce
            (as_bytes peer_id) plaintext)
          (key_derivation_failed (lit "sealing the key failed"))

  -- `seal` and `seal_with_nonce`, with the nonce that was drawn.
  unfoldable pub seal : TransportKey → Bytes → Bytes → Str → Bytes → Str → Service (Bytes × Bytes)
  unfolding seal_bytes
  seal transport seal_to challenge_nonce peer_id nonce key_hex = do
    ciphertext ←
        seal_bytes seal_domain transport seal_to challenge_nonce peer_id nonce (as_bytes key_hex)
    ok (nonce, ciphertext)

  unfoldable pub seal_v2 :
      TransportKey → Bytes → Bytes → Str → Bytes → Bytes → Service (Bytes × Bytes)
  unfolding seal_bytes
  seal_v2 transport seal_to challenge_nonce peer_id nonce plaintext = do
    ciphertext ← seal_bytes seal_domain_v2 transport seal_to challenge_nonce peer_id nonce plaintext
    ok (nonce, ciphertext)
