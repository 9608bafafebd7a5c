-- ===== src/Cluster.antt =====
-- mero-kms/src/cluster.rs: how a replica gets its cluster's root and gives it on. Random bytes,
-- the clock's answers, the attestation crate and the HTTP calls are arguments.
pub mod Nonces
pub mod Sealing
pub mod Join
pub mod Given
pub mod Trusted
pub mod Exchange
use mero_tee.Prelude.{
  ℕ, suc, ◌+◌, ◌*◌, String, Bool, true, false, not, ◌&&◌, ◌||◌, Option, none, some, List, [], ◌∷◌,
  ◌++◌, ltb, leb, ◌==◌, if◌then◌else◌, length, take, drop, all, any, list_eq,
}
use mero_tee.Text.{Str, Bytes, lit, to_be_bytes, from_be_bytes, eq_ignore_ascii_case}
use mero_tee.Errors.{
  Service, ServiceError, Result, ok, err, ensure, ok_or, map_err, ◌>>=◌, ◌>>◌,
  invalid_attestation_request, invalid_base64, invalid_challenge, key_derivation_failed,
  attestation_verification_failed, tcb_status_rejected, measurement_policy_rejected,
}
use mero_tee.Map.{Map, contains_key, insert, retain}
use mero_tee.Map.Order.{list_ord}
use mero_tee.Crypto.{Crypto}
use mero_tee.Measurement.{is_debug_td}
use mero_tee.Backend.{
  TdxBackend, Measurements, Root, AttestationResult, root_from_bytes, measurements_of, with_root,
  quote, record_join_refusal, record_join_error, set_root,
}
use mero_tee.Policy.{AttestationPolicy, VerificationResult}

unfoldable pub join_domain : Bytes
join_domain = lit "mero-kms/cluster/join/v1"

unfoldable pub give_domain : Bytes
give_domain = lit "mero-kms/cluster/give/v1"

unfoldable pub root_seal_domain : Bytes
root_seal_domain = lit "mero-kms/cluster/root-seal/v1"

unfoldable pub join_nonce_domain : Bytes
join_nonce_domain = lit "mero-kms/cluster/join-nonce/v1"

abbrev pub join_nonce_ttl_secs : ℕ
join_nonce_ttl_secs = 60

abbrev pub join_nonce_random : ℕ
join_nonce_random = 8

abbrev pub join_nonce_body : ℕ
join_nonce_body = join_nonce_random + 8

pub record JoinNonces : Type 0 where
  pub key : Bytes
  pub spent : Map Bytes ℕ

abbrev pub unknown_join_nonce : ServiceError
unknown_join_nonce = invalid_challenge (lit "unknown join nonce")

abbrev pub join_nonce_expired : ServiceError
join_nonce_expired = invalid_challenge (lit "join nonce expired")

abbrev pub join_nonce_used : ServiceError
join_nonce_used = invalid_challenge (lit "join nonce already used")

abbrev pub root_low_order : ServiceError
root_low_order = invalid_attestation_request (lit "a cluster key is a low-order point")

abbrev pub root_does_not_open : ServiceError
root_does_not_open = key_derivation_failed (lit "the sealed root does not open")

-- Whether two byte strings differ at a place that both have.
unfoldable pub differ : Bytes → Bytes → Bool
differ [] theirs = false
differ (a ∷ ours) [] = false
differ (a ∷ ours) (b ∷ theirs) = not (a == b) || differ ours theirs

-- `JoinNonces::spend`
unfoldable pub spend : JoinNonces → Bytes → ℕ → ℕ → JoinNonces × Service (Unit {0})
spend self nonce expires_at now =
    let kept = retain (λ expiry. leb now expiry) self.spent in
    (
      record self { spent = insert kept nonce expires_at },
      ensure (not (contains_key kept nonce)) join_nonce_used,
    )

module _ (c : Crypto) where
  unfoldable pub tag : JoinNonces → Bytes → Bytes
  tag self body = c.hmac self.key (join_nonce_domain ++ body)

  unfoldable pub issue : JoinNonces → Bytes → ℕ → Bytes
  issue self random now =
      let body = random ++ to_be_bytes (now + join_nonce_ttl_secs) in
      body ++ take 16 (tag self body)

  -- `JoinNonces::open`
  unfoldable pub open_nonce : JoinNonces → Bytes → ℕ → Service ℕ
  open_nonce self nonce now =
      if differ (take 16 (tag self (take join_nonce_body nonce))) (drop join_nonce_body nonce)
      then err unknown_join_nonce
      else let expires_at = from_be_bytes (drop join_nonce_random (take join_nonce_body nonce)) in
        if ltb expires_at now then err join_nonce_expired else ok expires_at

  unfoldable pub join_binding : Bytes → Bytes
  join_binding joiner_public = c.sha256 (join_domain ++ joiner_public)

  unfoldable pub give_binding : Bytes → Bytes → Bytes → Bytes → Bytes
  give_binding joiner_public giver_public seal_nonce sealed_root =
      c.sha256 (give_domain ++ (joiner_public ++ (giver_public ++ (seal_nonce ++ sealed_root))))

  unfoldable pub root_seal_key : Bytes → Bytes → Bytes → Bytes → Bytes → Service Bytes
  root_seal_key secret their_public giver_public joiner_public join_nonce =
      let shared = c.mul_clamped their_public secret in
      if all (λ byte. byte == 0) shared
      then err root_low_order
      else ok (c.hkdf join_nonce shared (root_seal_domain ++ (giver_public ++ joiner_public)))

  unfoldable pub seal_root : Root → Bytes → Bytes → Bytes → Bytes → Service Bytes
  seal_root root giver_secret joiner_public join_nonce seal_nonce = do
    key ←
        root_seal_key giver_secret joiner_public (c.mul_base_clamped giver_secret) joiner_public
          join_nonce
    ok_or (c.aead_seal key seal_nonce root_seal_domain root.bytes)
        (key_derivation_failed (lit "sealing the root failed"))

  unfoldable pub open_root : Bytes → Bytes → Bytes → Bytes → Bytes → Service Root
  open_root joiner_secret giver_public join_nonce seal_nonce sealed_root = do
    key ←
        root_seal_key joiner_secret giver_public giver_public (c.mul_base_clamped joiner_secret)
          join_nonce
    plain ← ok_or (c.aead_open key seal_nonce root_seal_domain sealed_root) root_does_not_open
    root_from_bytes plain

-- `Measurements` compared field by field.
unfoldable pub measurements_eq : Measurements → Measurements → Bool
measurements_eq a b =
    list_eq a.mrtd b.mrtd
    && list_eq a.rtmr0 b.rtmr0
    && list_eq a.rtmr1 b.rtmr1
    && list_eq a.rtmr2 b.rtmr2
    && list_eq a.rtmr3 b.rtmr3

-- How the messages of two refusals are written (`{}` and `{:?}` of the values).
pub record Messages : Type 0 where
  pub failed_verification : VerificationResult → Str
  pub other_measurements : Measurements → Str

unfoldable pub check_peer :
    Crypto → Messages → VerificationResult → Measurements → AttestationPolicy → Service (Unit {0})
check_peer c messages verification own policy = do
  ensure verification.is_valid
      (attestation_verification_failed (messages.failed_verification verification))
  ensure (not (is_debug_td c verification.body.tdattributes))
      (attestation_verification_failed (lit "peer is a debug TD"))
  status ← ok_or verification.tcb_status (tcb_status_rejected (lit "peer quote has no TCB status"))
  ensure (any (λ allowed. eq_ignore_ascii_case allowed status) policy.allowed_tcb_statuses) (
      tcb_status_rejected
        (lit "peer TCB status '" ++ (status ++ lit "' is not in this image's policy")))
  ensure (measurements_eq (measurements_of verification.body) own) (
      measurement_policy_rejected (messages.other_measurements (measurements_of verification.body)))

-- The attestation crate's check of a quote against a nonce and a binding.
abbrev pub VerifyAttestation : Type 0
VerifyAttestation = Bytes → Bytes → Bytes → Result Str VerificationResult

unfoldable pub verify_peer :
    Crypto
    → Messages
    → VerifyAttestation
    → TdxBackend
    → AttestationPolicy
    → Bytes
    → Bytes
    → Bytes
    → Service (Unit {0})
verify_peer c messages verify tdx policy quote_bytes nonce binding = do
  verification ← map_err attestation_verification_failed (verify quote_bytes nonce binding)
  check_peer c messages verification tdx.own policy
