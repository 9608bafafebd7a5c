-- ===== src/Gate/Binding.antt =====
-- mero-inference-gate/src/attest.rs: what a quote commits to, and the `/attest` messages.
pub mod Collision
use mero_tee.Prelude.{ℕ, Bool, Option, none, some, List, [], ◌++◌, length, ◌==◌}
use mero_tee.Text.{Str, Bytes, lit, as_bytes, trim}
use mero_tee.Errors.{Result, ok, ensure, ok_or, ◌>>=◌, ◌>>◌}
use mero_tee.Crypto.{Crypto}
use mero_tee.Gate.{Libraries}

abbrev pub gate_attest_domain : Bytes
gate_attest_domain = lit "mero-inference-gate/attest/v1"

abbrev pub config_event_prefix : Str
config_event_prefix = lit "calimero-inference-config-v1:"

-- `gpu_json.unwrap_or("").as_bytes()`
unfoldable pub gpu_bytes : Option Str → Bytes
gpu_bytes none = []
gpu_bytes (some text) = as_bytes text

unfoldable pub binding : Crypto → Bytes → Bytes → Option Str → Bytes
binding c spki_sha256 config_digest gpu_json =
    c.sha256
      (gate_attest_domain ++ (spki_sha256 ++ (config_digest ++ c.sha256 (gpu_bytes gpu_json))))

unfoldable pub report_data : Bytes → Bytes → Bytes
report_data nonce bound = nonce ++ bound

unfoldable pub config_event : Libraries → Bytes → Bytes
config_event l config_digest =
    l.sha384 (as_bytes (config_event_prefix ++ l.crypto.hex_encode config_digest))

unfoldable pub expected_rtmr3 : Libraries → Bytes → Bytes → Bytes
expected_rtmr3 l base config_digest = l.sha384 (base ++ config_event l config_digest)

pub record AttestRequest : Type 0 where
  pub nonce_hex : Str

pub record AttestResponse : Type 0 where
  pub quote_b64 : Str
  pub report_data_hex : Str
  pub tls_spki_sha256 : Str
  pub config_json : Str
  pub config_digest : Str
  pub gpu_json : Option Str

unfoldable pub parse_nonce : Crypto → Str → Result Str Bytes
parse_nonce c nonce_hex = do
  bytes ← ok_or (c.hex_decode (trim nonce_hex)) (lit "nonceHex is not hex")
  ensure (length bytes == 32) (lit "nonceHex is not 32 bytes")
  ok bytes
