-- ===== src/Examples.antt =====
-- Concrete stand-ins for what the program takes from other crates, and tests of the theorems at
-- concrete inputs.
pub mod Counting
pub mod Joining
pub mod Releasing
pub mod Raising
pub mod Giving
pub mod Configuring
pub mod Gating
pub mod Syncing
pub mod Serving
use mero_tee.Prelude.{
  ℕ, suc, ◌+◌, ◌%◌, ◌≡◌, refl, ap, Bool, true, false, Option, none, some, List, [], ◌∷◌, length,
  replicate, list_eq, list_eq_iff, arith, inl, inr,
}
use mero_tee.Text.{Str, Bytes}
use mero_tee.Errors.{Result, ok, err}
use mero_tee.Crypto.{Crypto, CodecLaws, MacLaws, SealLaws}
use mero_tee.Config.{Config}
use mero_tee.Policy.{AttestationPolicy}
use mero_tee.Backend.{Measurements, QuoteBody, Root, TdxBackend}

-- A code of 32 bytes.
abbrev pub toy_digest : Bytes → Bytes → Bytes
toy_digest key text = (length text % 256) ∷ replicate 31 (length key % 256)

abbrev pub add_bytes : Bytes → Bytes → Bytes
add_bytes [] b = []
add_bytes (x ∷ a) [] = []
add_bytes (x ∷ a) (y ∷ b) = (x + y) ∷ add_bytes a b

add_bytes_comm : (a b : Bytes) → add_bytes a b ≡ add_bytes b a
add_bytes_comm [] [] = refl
add_bytes_comm [] (y ∷ b) = refl
add_bytes_comm (x ∷ a) [] = refl
add_bytes_comm (x ∷ a) (y ∷ b) =
    let head : x + y ≡ y + x = omega arith in let tail = add_bytes_comm a b in cc

abbrev pub toy : Crypto
toy = record {
  hex_encode = λ b. b;
  hex_decode = λ s. some s;
  base64_encode = λ b. b;
  base64_decode = λ s. ok s;
  hmac = toy_digest;
  hmac_verify = λ k m t. list_eq t (toy_digest k m);
  sha256 = toy_digest [];
  hkdf = λ salt secret info. toy_digest salt info;
  mul_base_clamped = λ s. s;
  mul_clamped = add_bytes;
  aead_seal = λ k n a p. some p;
  aead_open = λ k n a t. some t;
}

pub toy_codec : CodecLaws toy
toy_codec = record { hex = λ b. refl; base64 = λ b. refl }

pub toy_mac : MacLaws toy
toy_mac = record { verify = λ k m t. list_eq_iff t (toy_digest k m); tag_len = λ k m. refl }

pub toy_seal : SealLaws toy
toy_seal = record { agree = add_bytes_comm; open_seal = λ k n a p t h. cc }

abbrev pub toy_measurements : Measurements
toy_measurements = record {
  mrtd = b'a' ∷ [];
  rtmr0 = b'b' ∷ [];
  rtmr1 = [];
  rtmr2 = [];
  rtmr3 = b'1' ∷ [];
}

abbrev pub toy_body : QuoteBody
toy_body = record {
  mrtd = b'A' ∷ [];
  rtmr0 = b'b' ∷ [];
  rtmr1 = [];
  rtmr2 = [];
  rtmr3 = b'1' ∷ [];
  tdattributes = 0 ∷ 0 ∷ 0 ∷ 16 ∷ 0 ∷ 0 ∷ 0 ∷ 0 ∷ [];
}

abbrev pub toy_root : Root
toy_root = record { bytes = replicate 32 5 }

abbrev pub toy_backend : TdxBackend
toy_backend = record {
  root = some toy_root;
  own = toy_measurements;
  last_join_error = none;
  last_join_refusal = none;
}

abbrev pub toy_config : Config
toy_config = record {
  listen_addr = (127 ∷ 0 ∷ 0 ∷ 1 ∷ [], 8080);
  challenge_ttl_secs = 60;
  max_consumed_challenges = 2;
  kms_profile = [];
  key_namespace_prefix = [];
  agent_key_namespace_prefix = [];
  cors_allowed_origins = [];
  attestation_policy = record {
    enforce_measurement_policy = true;
    allowed_tcb_statuses = [];
    entries = [];
  };
  require_sealed_key_release = true;
  kms_bootstrap = true;
  cluster_peers = [];
  join_retry_secs = 10;
  replicas = 1;
}
