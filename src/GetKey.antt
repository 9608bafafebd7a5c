-- ===== src/GetKey.antt =====
-- mero-kms/src/handlers/get_key.rs: the release of a key. Mock attestation (a default-off feature)
-- is not built. The attestation crate, libp2p's keys, serde_json, the clock, the random bytes and
-- the other replicas are arguments.
pub mod Authorized
pub mod Spending
pub mod Release
pub mod Signed
pub mod Passed
pub mod Paths
use mero_tee.Prelude.{
  ℕ, String, Bool, true, false, not, ◌&&◌, Option, none, some, List, [], ◌∷◌, ◌++◌, ◌==◌,
  if◌then◌else◌, list_eq,
}
use mathlib.Core.Option
use mero_tee.Text.{Str, Bytes, lit, as_bytes, trim_matches, to_ascii_lowercase}
use mero_tee.Errors.{
  Service, ServiceError, Result, ok, err, ensure, ok_or, map_err, invalid_base64, invalid_challenge,
  invalid_peer_public_key, invalid_signature, peer_identity_mismatch, peer_id_mismatch,
  invalid_attestation_request, attestation_verification_failed, key_derivation_failed,
}
use mero_tee.Errors
use mero_tee.Exec.{Exec, pure, lift, raise, gets, modify, guard, ◌>>=◌, ◌>>◌}
use mero_tee.Map.{get}
use mero_tee.Map.Order.{nat_ord}
use mero_tee.Crypto.{Crypto}
use mero_tee.Backend.{challenge_key, derive_key_hex, rollback_session_key}
use mero_tee.Policy.{Role, node, agent, role_eq, VerificationResult, enforce_attestation_policy}
use mero_tee.Sealed.{transport_key, request_binding, request_binding_v2, seal, seal_v2}
use mero_tee.Attest.{decode_fixed_b64_32}
use mero_tee.Counters.{Entry, ClusterCounters, session_key_info}
use mero_tee.Counters.Replica.{CounterJson, Net}
use mero_tee.Counters.Ops.{read}
use mero_tee.Challenge.{open_id, spend}
use mero_tee.PeerId.{validate_peer_id_shape}
use mero_tee.Config.{Config}
use mero_tee.State.{AppState, Clock, now, with_counters, with_spent}

pub record GetKeyRequest : Type 0 where
  pub challenge_id : Str
  pub quote_b64 : Str
  pub peer_id : Str
  pub peer_public_key_b64 : Str
  pub signature_b64 : Str
  pub seal_to_b64 : Option Str
  pub rollback_node_id : Option ℕ

pub record ReleaseRecord : Type 0 where
  pub key_hex : Str
  pub epoch : ℕ
  pub generation : ℕ
  pub mark : Option ℕ
  pub session_id_b64 : Str
  pub session_key_hex : Str

pub record GetKeyResponse : Type 0 where
  pub key : Option Str
  pub sealed_key_b64 : Option Str
  pub seal_nonce_b64 : Option Str

-- A libp2p public key: its peer id in base58, and its check of a signature over a message.
pub record PublicKey : Type 0 where
  pub peer_id : Str
  pub verify : Bytes → Bytes → Bool

pub data JsonValue : Type 0 where
  text : Str → JsonValue
  number : ℕ → JsonValue

-- What the release takes from other crates, beside the primitives of `Crypto`.
pub record Libraries : Type 0 where
  -- crate calimero-tee-attestation (quote, nonce, binding)
  pub verify_attestation : Bytes → Bytes → Bytes → Result Str VerificationResult
  -- crate libp2p-identity
  pub decode_public_key : Bytes → Result Str PublicKey
  -- crate serde_json: an object of these fields, and a release record
  pub payload_to_vec : List (Str × JsonValue) → Result Str Bytes
  pub record_to_vec : ReleaseRecord → Option Bytes

-- What one request meets: the clock at the opening and at the spending of the challenge, the
-- random bytes, and the round of a read of the counters.
pub record Request : Type 0 where
  pub request : GetKeyRequest
  pub opened_at : Clock
  pub spent_at : Clock
  pub net : Net
  pub read_nonce : Bytes
  pub session_id : Bytes
  pub seal_nonce : Bytes

unfoldable pub key_path_for_peer : Config → Role → Str → Str
key_path_for_peer config role peer_id =
    let namespace : Str = elim role [
      | node ↦ config.key_namespace_prefix
      | agent ↦ config.agent_key_namespace_prefix
    ] in
    trim_matches (λ c. c == b'/') namespace ++ (b'/' ∷ config.kms_profile ++ (b'/' ∷ peer_id))

module _ (c : Crypto) (libs : Libraries) where
  unfoldable pub hash_peer_id : Str → Bytes
  hash_peer_id peer_id = c.sha256 (as_bytes peer_id)

  -- The payload that the node signs.
  unfoldable pub payload_fields :
      Str → Bytes → Bytes → Str → Option Bytes → Option ℕ → List (Str × JsonValue)
  payload_fields challenge_id challenge_nonce quote_bytes peer_id seal_to rollback_node_id =
      (lit "challengeId", text challenge_id)
        ∷ (lit "challengeNonceHex", text (c.hex_encode challenge_nonce))
        ∷ (lit "quoteHashHex", text (c.hex_encode (c.sha256 quote_bytes)))
        ∷ (lit "peerId", text peer_id)
        ∷ (elim seal_to [ none ↦ [] | some key ↦ (lit "sealToHex", text (c.hex_encode key)) ∷ [] ])
      ++ (elim rollback_node_id [ none ↦ [] | some id ↦ (lit "rollbackNodeId", number id) ∷ [] ])

  unfoldable pub signature_payload :
      Str → Bytes → Bytes → Str → Option Bytes → Option ℕ → Service Bytes
  unfolding payload_fields
  signature_payload challenge_id challenge_nonce quote_bytes peer_id seal_to rollback_node_id =
      map_err (λ e. invalid_signature (lit "failed to serialize payload: " ++ e))
        (libs.payload_to_vec (
          payload_fields challenge_id challenge_nonce quote_bytes peer_id seal_to rollback_node_id))

  -- The key and the signature that a request names, decoded.
  unfoldable pub verify_peer_signature_for :
      Str → Str → Str → Str → Bytes → Bytes → Option Bytes → Option ℕ → Service (Unit {0})
  verify_peer_signature_for peer_id peer_public_key_b64 signature_b64 challenge_id challenge_nonce
        quote_bytes seal_to rollback_node_id =
      Errors.◌>>=◌ (map_err invalid_peer_public_key (c.base64_decode peer_public_key_b64))
        λ public_key_bytes.
          Errors.◌>>=◌ (map_err invalid_signature (c.base64_decode signature_b64))
            λ signature_bytes.
              Errors.◌>>=◌
                (map_err invalid_peer_public_key (libs.decode_public_key public_key_bytes))
                λ public_key.
                  Errors.◌>>=◌ (ensure (list_eq public_key.peer_id peer_id) peer_identity_mismatch)
                    λ _.
                      Errors.◌>>=◌
                        (signature_payload challenge_id challenge_nonce quote_bytes peer_id seal_to
                          rollback_node_id)
                        λ payload.
                          ensure (public_key.verify payload signature_bytes)
                            (invalid_signature (lit "signature verification failed"))

  -- Why a quote that did not verify is refused.
  unfoldable pub require_valid : VerificationResult → Service (Unit {0})
  require_valid result =
      if result.is_valid
      then ok tt
      else if not result.nonce_verified
      then err (invalid_challenge (lit "Attested nonce does not match issued challenge"))
      else if not result.application_hash_verified
      then err peer_id_mismatch
      else err (attestation_verification_failed (lit "Quote cryptographic verification failed"))

  unfoldable pub verify_and_enforce_attestation : Config → Bytes → Bytes → Bytes → Service Role
  verify_and_enforce_attestation config quote_bytes challenge_nonce binding =
      Errors.◌>>=◌
        (map_err attestation_verification_failed
          (libs.verify_attestation quote_bytes challenge_nonce binding))
        λ result.
          Errors.◌>>=◌ (require_valid result)
            λ _. enforce_attestation_policy config.attestation_policy result

  -- The challenge's nonce and expiry.
  unfoldable pub open_challenge : AppState → Clock → GetKeyRequest → Service (Bytes × ℕ)
  open_challenge state clock request = Errors.◌>>=◌ (now clock) λ moment.
      Errors.◌>>=◌ (challenge_key c state.backend) λ key.
        open_id c key request.challenge_id request.peer_id moment state.config.challenge_ttl_secs

  -- Kept under the id in lower case.
  unfoldable pub spend_challenge : Clock → GetKeyRequest → ℕ → Exec AppState (Unit {0})
  spend_challenge clock request expires_at = do
    moment ← lift (now clock)
    capacity ← gets (λ s. s.config.max_consumed_challenges)
    with_spent
        (λ spent. spend spent (to_ascii_lowercase request.challenge_id) expires_at moment capacity)

  -- What the quote must carry after the nonce.
  unfoldable pub binding_of : Option Bytes → Str → Option ℕ → Bytes
  binding_of none peer_id rollback_node_id = hash_peer_id peer_id
  binding_of (some seal_to) peer_id none = request_binding c seal_to peer_id
  binding_of (some seal_to) peer_id (some id) = request_binding_v2 c seal_to peer_id id

  -- `seal_to_b64`, decoded where it is given.
  unfoldable pub decode_seal_to : Option Str → Service (Option Bytes)
  decode_seal_to none = ok none
  decode_seal_to (some value) =
      Errors.◌>>=◌ (decode_fixed_b64_32 c (lit "sealToB64") value) λ key. ok (some key)

  unfoldable pub sealed_response : Service (Bytes × Bytes) → Service GetKeyResponse
  sealed_response sealed = Errors.◌>>=◌ sealed λ s. ok (record {
    key = none;
    sealed_key_b64 = some (c.base64_encode s.1);
    seal_nonce_b64 = some (c.base64_encode s.0);
  })

  -- The record that a release with a counter seals.
  unfoldable pub record_of : Str → ℕ → ClusterCounters → Bytes → Bytes → ReleaseRecord
  record_of key_hex id counters session_id session_key = record {
    key_hex = key_hex;
    epoch = counters.epoch;
    generation = elim (get counters.nodes id) [ none ↦ counters.epoch | some e ↦ e.generation ];
    mark = Option.map (λ e. e.mark) (get counters.nodes id);
    session_id_b64 = c.base64_encode session_id;
    session_key_hex = c.hex_encode session_key;
  }

  -- The answer, once the key may be released.
  unfoldable pub respond :
      AppState
      → Request
      → Bytes
      → Option Bytes
      → Str
      → Str
      → Option (ℕ × ClusterCounters)
      → Service GetKeyResponse
  respond state r challenge_nonce none key_path key_hex counters =
      ok (record { key = some key_hex; sealed_key_b64 = none; seal_nonce_b64 = none })
  respond state r challenge_nonce (some seal_to) key_path key_hex none =
      Errors.◌>>=◌ (transport_key c state.backend) λ transport.
        sealed_response
          (seal c transport seal_to challenge_nonce r.request.peer_id r.seal_nonce key_hex)
  respond state r challenge_nonce (some seal_to) key_path key_hex (some (id, counters)) =
      Errors.◌>>=◌ (transport_key c state.backend) λ transport.
        Errors.◌>>=◌
          (rollback_session_key c state.backend (session_key_info c key_path id r.session_id))
          λ session_key.
            Errors.◌>>=◌
              (ok_or (libs.record_to_vec (record_of key_hex id counters r.session_id session_key))
                (key_derivation_failed (lit "serializing the release failed")))
              λ plaintext. sealed_response (
                seal_v2 c transport seal_to challenge_nonce r.request.peer_id r.seal_nonce
                  plaintext)

  -- The counters that a release carries, read before the challenge is spent.
  unfoldable pub read_counters :
      CounterJson → Request → Role → Str → Option ℕ → Exec AppState (Option (ℕ × ClusterCounters))
  read_counters j r role key_path none = pure none
  read_counters j r role key_path (some id) = do
    guard (role_eq role node)
        (invalid_attestation_request (lit "rollback counters are kept for nodes only"))
    backend ← gets (λ s. s.backend)
    counters ← with_counters (read c j backend r.net r.read_nonce key_path)
    pure (some (id, counters))

  is_given : {A : Type 0} → Option A → Bool
  is_given none = false
  is_given (some a) = true

  -- All that a request must pass before a key path is formed: the nonce and expiry of its
  -- challenge, its seal key, and the role that its quote has.
  unfoldable pub authorize : AppState → Request → Service (Bytes × ℕ × Option Bytes × Role)
  unfolding is_given
  authorize state r =
      Errors.◌>>=◌ (map_err invalid_base64 (c.base64_decode r.request.quote_b64)) λ quote_bytes.
        Errors.◌>>=◌ (decode_seal_to r.request.seal_to_b64) λ seal_to.
          Errors.◌>>=◌
            (ensure (not (is_given r.request.rollback_node_id && not (is_given seal_to)))
              (invalid_attestation_request (lit "rollbackNodeId needs sealToB64")))
            λ _.
              Errors.◌>>=◌
                (ensure (not (not (is_given seal_to) && state.config.require_sealed_key_release)) (
                  invalid_attestation_request (
                    lit
                      "this KMS releases keys sealed only; the request carries no sealToB64. Upgrade merod.")))
                λ _. Errors.◌>>=◌ (open_challenge state r.opened_at r.request) λ opened.
                  Errors.◌>>=◌
                    (verify_peer_signature_for r.request.peer_id r.request.peer_public_key_b64
                      r.request.signature_b64 r.request.challenge_id opened.0 quote_bytes seal_to
                      r.request.rollback_node_id)
                    λ _.
                      Errors.◌>>=◌
                        (verify_and_enforce_attestation state.config quote_bytes opened.0
                          (binding_of seal_to r.request.peer_id r.request.rollback_node_id))
                        λ role. ok (opened.0, opened.1, seal_to, role)

  unfoldable pub release_key : CounterJson → Request → Exec AppState GetKeyResponse
  release_key j r = do
    (challenge_nonce, expires_at, seal_to, role) ← (λ s. (s, authorize s r))
    key_path ← gets (λ s. key_path_for_peer s.config role r.request.peer_id)
    counters ← read_counters j r role key_path r.request.rollback_node_id
    spend_challenge r.spent_at r.request expires_at
    key_hex ← (λ s. (s, derive_key_hex c s.backend key_path))
    (λ s. (s, respond s r challenge_nonce seal_to key_path key_hex counters))

  unfoldable pub get_key_handler : CounterJson → Request → Exec AppState GetKeyResponse
  get_key_handler j r = do lift (validate_peer_id_shape r.request.peer_id); release_key j r
