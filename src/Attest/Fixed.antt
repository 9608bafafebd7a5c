-- ===== src/Attest/Fixed.antt =====
-- mero-kms/src/handlers/attest.rs, `decode_fixed_b64_32`: what it takes.
use mero_tee.Prelude.{◌≡◌, ◌==◌, length, arith, inl, inr, Bool-cases}
use mero_tee.Text.{Str, Bytes}
use mero_tee.Errors.{ok, Result-cases}
use mero_tee.Crypto.{Crypto}
use mero_tee.Attest.{decode_fixed_b64_32}

pub decode_fixed_b64_32-eq-ok :
    (c : Crypto) (field_name value : Str) (bytes : Bytes)
    → decode_fixed_b64_32 c field_name value ≡ ok bytes
    → (c.base64_decode value ≡ ok bytes) × (length bytes ≡ 32)
unfolding decode_fixed_b64_32
decode_fixed_b64_32-eq-ok c field_name value bytes h = elim (Result-cases (c.base64_decode value)) [
  | inr (e, f) ↦ absurd (ground arith)
  | inl (decoded, found) ↦ elim (Bool-cases (length decoded == 32)) [
    | inl sized ↦ ground arith
    | inr other ↦ absurd (ground arith)
  ]
]
