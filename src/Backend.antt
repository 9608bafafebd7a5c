-- ===== src/Backend.antt =====
-- mero-kms/src/backend.rs: the root that a replica holds, the keys derived from it, and the
-- replica's own measurements. Mock attestation (a default-off feature) is not built, and a lock
-- is never poisoned (nothing panics while holding one).
use mero_tee.Prelude.{
  ℕ, Bool, true, false, Option, none, some, ◌++◌, all, length, ◌==◌, if◌then◌else◌, replicate,
}
use mero_tee.Text.{Str, Bytes, lit, to_ascii_lowercase, as_bytes}
use mero_tee.Errors.{
  Result, Service, ServiceError, ok, err, ◌>>=◌, map_err, invalid_attestation_request,
  key_derivation_failed, policy_not_ready, attestation_verification_failed,
}
use mero_tee.Crypto.{Crypto}
use mero_tee.Measurement.{is_debug_td}

pub record Measurements : Type 0 where
  pub mrtd : Str
  pub rtmr0 : Str
  pub rtmr1 : Str
  pub rtmr2 : Str
  pub rtmr3 : Str

-- What the program reads of a quote's body (crate calimero-server-primitives).
pub record QuoteBody : Type 0 where
  pub mrtd : Str
  pub rtmr0 : Str
  pub rtmr1 : Str
  pub rtmr2 : Str
  pub rtmr3 : Str
  pub tdattributes : Str

unfoldable pub measurements_of : QuoteBody → Measurements
measurements_of body = record {
  mrtd = to_ascii_lowercase body.mrtd;
  rtmr0 = to_ascii_lowercase body.rtmr0;
  rtmr1 = to_ascii_lowercase body.rtmr1;
  rtmr2 = to_ascii_lowercase body.rtmr2;
  rtmr3 = to_ascii_lowercase body.rtmr3;
}

abbrev pub key_len : ℕ
key_len = 32

-- The root's bytes.
pub record Root : Type 0 where
  pub bytes : Bytes

unfoldable pub root_from_bytes : Bytes → Service Root
root_from_bytes bytes =
    if length bytes == key_len
    then ok (record { bytes = bytes })
    else err (invalid_attestation_request (lit "a root is 32 bytes"))

-- The salts keep the families of keys apart.
unfoldable pub root_derive_salt : Bytes
root_derive_salt = lit "mero-kms/tdx-root/derive/v1"

unfoldable pub challenge_key_salt : Bytes
challenge_key_salt = lit "mero-kms/tdx-root/challenge-mac/v1"

unfoldable pub counters_key_salt : Bytes
counters_key_salt = lit "mero-kms/tdx-root/counters/v1"

unfoldable pub rollback_session_salt : Bytes
rollback_session_salt = lit "mero-kms/tdx-root/rollback-session/v1"

unfoldable pub transport_key_path : Str
transport_key_path = lit "mero-kms/transport/x25519/v1"

pub record TdxBackend : Type 0 where
  pub root : Option Root
  pub own : Measurements
  pub last_join_error : Option Str
  pub last_join_refusal : Option Str

-- A quote of this TD, as far as the program reads it.
pub record AttestationResult : Type 0 where
  pub quote_bytes : Bytes
  pub body : QuoteBody

-- `TdxBackend::quote`: `attest` is the kernel's answer to the report data.
unfoldable pub quote : (Bytes → Result Str AttestationResult) → Bytes → Service AttestationResult
quote attest report_data = map_err attestation_verification_failed (attest report_data)

unfoldable pub self_measurement_domain : Bytes
self_measurement_domain = lit "mero-kms/self-measurement/v1"

abbrev pub debug_refusal : Str
debug_refusal = lit "this is a debug TD, whose memory its host can read; refusing to hold a root"

abbrev pub rtmr3_refusal : Str
rtmr3_refusal =
    lit
      "RTMR3 was never extended, so this TD's measurements do not cover its image; refusing to hold a root"

-- A startup failure as the operator reads it.
pub data StartupError : Type 0 where
  no_quote : ServiceError → StartupError
  refused : Str → StartupError

-- `TdxBackend::new`, without its log lines.
unfoldable pub new :
    Crypto → (Bytes → Result Str AttestationResult) → Result StartupError TdxBackend
new c attest = do
  own ← map_err no_quote (quote attest (c.sha256 self_measurement_domain ++ replicate 32 0))
  let measured = measurements_of own.body
  if is_debug_td c own.body.tdattributes
      then err (refused debug_refusal)
      else if all (λ b. b == b'0') measured.rtmr3
      then err (refused rtmr3_refusal)
      else ok
          (record { root = none; own = measured; last_join_error = none; last_join_refusal = none })

unfoldable pub has_root : TdxBackend → Bool
has_root b = elim b.root [ none ↦ false | some _ ↦ true ]

unfoldable pub record_join_error : TdxBackend → Str → TdxBackend
record_join_error b error = record b { last_join_error = some error }

unfoldable pub reported_join_error : TdxBackend → Option Str
unfolding has_root
reported_join_error b = if has_root b then none else b.last_join_error

unfoldable pub record_join_refusal : TdxBackend → Str → TdxBackend
record_join_refusal b refusal = record b { last_join_refusal = some refusal }

-- A replica holds one root for its lifetime.
unfoldable pub set_root : TdxBackend → Root → TdxBackend × Service (Unit {0})
set_root b root = elim b.root [
  | none ↦ (record b { root = some root }, ok tt)
  | some _ ↦ (b, err (key_derivation_failed (lit "this replica already holds a root")))
]

abbrev pub not_joined : ServiceError
not_joined = policy_not_ready (lit "this KMS replica has not joined its cluster yet")

unfoldable pub with_root {ℓ} : {A : Type ℓ} → TdxBackend → (Root → Service A) → Service A
with_root b f = elim b.root [ none ↦ err not_joined | some root ↦ f root ]

module _ (c : Crypto) where
  -- HKDF-SHA256 of the root under a salt, with the path as the info.
  unfoldable pub derive_salted : Root → Bytes → Str → Bytes
  derive_salted root salt path = c.hkdf salt root.bytes (as_bytes path)

  unfoldable pub derive : TdxBackend → Str → Service Bytes
  unfolding with_root derive_salted
  derive b path = with_root b (λ root. ok (derive_salted root root_derive_salt path))

  unfoldable pub derive_key_hex : TdxBackend → Str → Service Str
  unfolding derive
  derive_key_hex b path = do key ← derive b path; ok (c.hex_encode key)

  unfoldable pub challenge_key : TdxBackend → Service Bytes
  unfolding with_root derive_salted
  challenge_key b =
      with_root b (λ root. ok (derive_salted root challenge_key_salt (lit "challenge")))

  unfoldable pub counters_key : TdxBackend → Service Bytes
  unfolding with_root derive_salted
  counters_key b = with_root b (λ root. ok (derive_salted root counters_key_salt (lit "counters")))

  unfoldable pub rollback_session_key : TdxBackend → Str → Service Bytes
  unfolding with_root derive_salted
  rollback_session_key b info =
      with_root b (λ root. ok (derive_salted root rollback_session_salt info))
