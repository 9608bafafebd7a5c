-- ===== src/Attest.antt =====
-- mero-kms/src/handlers/attest.rs: the KMS's own quote over a caller's nonce.
pub mod Fixed
pub mod Separate
use mero_tee.Prelude.{
  Bool, ◌&&◌, Option, none, some, List, [], ◌∷◌, ◌++◌, length, ◌==◌, if◌then◌else◌,
}
use mathlib.Core.Option
use mero_tee.Text.{Str, Bytes, lit}
use mero_tee.Errors.{Service, Result, ok, err, map_err, ◌>>=◌, invalid_attestation_request}
use mero_tee.Crypto.{Crypto}
use mero_tee.Backend.{TdxBackend, AttestationResult, quote}
use mero_tee.Sealed.{transport_key, attest_binding, attest_binding_v2, capabilities}

pub record KmsAttestRequest : Type 0 where
  pub nonce_b64 : Str
  pub binding_b64 : Option Str
  pub transport_key : Bool
  pub event_log : Bool
  pub capabilities : Bool

pub record KmsAttestResponse : Type 0 where
  pub quote_b64 : Str
  pub report_data_hex : Str
  pub transport_public_key_b64 : Option Str
  pub event_log_b64 : Option Str
  pub capabilities : Option (List Str)

unfoldable pub attest_domain_separator : Bytes
attest_domain_separator = lit "mero-kms-attest-v1"

unfoldable pub plain_attest_domain : Bytes
plain_attest_domain = lit "mero-kms/attest-plain/v1"

module _ (c : Crypto) where
  unfoldable pub decode_fixed_b64_32 : Str → Str → Service Bytes
  decode_fixed_b64_32 field_name value = do
    decoded ←
        map_err (λ e. invalid_attestation_request (field_name ++ (lit ": " ++ e)))
          (c.base64_decode value)
    if length decoded == 32
        then ok decoded
        else err (invalid_attestation_request (field_name ++ lit " must be exactly 32 bytes"))

  unfoldable pub default_attestation_binding : Bytes
  default_attestation_binding = c.sha256 attest_domain_separator

  unfoldable pub plain_attest_binding : Bytes → Bytes
  plain_attest_binding binding = c.sha256 (plain_attest_domain ++ binding)

  unfoldable pub resolve_attestation_binding : Option Str → Service Bytes
  unfolding default_attestation_binding
  resolve_attestation_binding none = ok default_attestation_binding
  resolve_attestation_binding (some value) = decode_fixed_b64_32 (lit "bindingB64") value

  -- What the quote carries after the nonce, and the transport key where it was asked for.
  unfoldable pub bind : TdxBackend → KmsAttestRequest → Bytes → Service (Bytes × Option Bytes)
  bind backend request binding =
      if request.transport_key
      then (do
        transport ← transport_key c backend
        ok (
          if request.capabilities
              then attest_binding_v2 c binding transport.public
              else attest_binding c binding transport.public,
          some transport.public,
        ))
      else ok (plain_attest_binding binding, none)

  unfoldable pub build_attestation_report_data : Bytes → Bytes → Bytes
  build_attestation_report_data nonce binding = nonce ++ binding

  -- `attest` is the kernel's answer to the report data, `event_log` the file's.
  unfoldable pub attest_kms_handler :
      (Bytes → Result Str AttestationResult)
      → Service Bytes
      → TdxBackend
      → KmsAttestRequest
      → Service KmsAttestResponse
  attest_kms_handler attest event_log backend request = do
    nonce ← decode_fixed_b64_32 (lit "nonceB64") request.nonce_b64
    given ← resolve_attestation_binding request.binding_b64
    (binding, transport_public) ← bind backend request given
    let report_data = build_attestation_report_data nonce binding
    quoted ← quote attest report_data
    log ←
        (if request.event_log
          then (do bytes ← event_log; ok (some (c.base64_encode bytes)))
          else ok none)
    ok (record {
      quote_b64 = c.base64_encode quoted.quote_bytes;
      report_data_hex = c.hex_encode report_data;
      transport_public_key_b64 = Option.map c.base64_encode transport_public;
      event_log_b64 = log;
      capabilities =
          if request.transport_key && request.capabilities then some (capabilities ∷ []) else none;
    })
