-- ===== src/Measurement.antt =====
-- mero-kms/src/util.rs and mero-kms/src/measurement.rs: hexadecimal measurements in one form, and
-- the debug bit of a TD.
pub mod Form
use mero_tee.Prelude.{
  ℕ, ◌*◌, ◌%◌, Bool, true, not, none, some, [], ◌∷◌, all, length, ◌==◌, if◌then◌else◌, list_eq,
}
use mero_tee.Text.{Str, Bytes, trim, trim_0x, to_ascii_lowercase, len, is_ascii_hexdigit}
use mero_tee.Errors.{Result, ok, err}
use mero_tee.Crypto.{Crypto}

abbrev pub measurement_bytes : ℕ
measurement_bytes = 48

pub data HexNormalizeError : Type 0 where
  bad_length : ℕ → ℕ → ℕ → HexNormalizeError
  non_hex_characters : HexNormalizeError

-- The form that values are compared in: trimmed, with no `0x`, in lower case.
unfoldable pub normalized : Str → Str
normalized raw = to_ascii_lowercase (trim_0x (trim raw))

unfoldable pub normalize_hex : Str → ℕ → Result HexNormalizeError Str
normalize_hex raw expected_bytes =
    let value = normalized raw in
    let expected_len = expected_bytes * 2 in
    if not (len value == expected_len)
    then err (bad_length expected_bytes expected_len (len value))
    else if not (all is_ascii_hexdigit value)
    then err non_hex_characters
    else ok value

pub record HexMeasurement : Type 0 where
  pub value : Str

unfoldable pub parse : Str → Result HexNormalizeError HexMeasurement
unfolding normalize_hex
parse raw = elim (normalize_hex raw measurement_bytes) [
  | ok value ↦ ok (record { value = value })
  | err e ↦ err e
]

unfoldable pub matches_raw : HexMeasurement → Str → Bool
matches_raw m raw = list_eq m.value (normalized raw)

-- Bit 0 of the first of eight bytes; anything else counts as a debug TD.
first_bit : Bytes → Bool
first_bit [] = true
first_bit (b ∷ bs) = b % 2 == 1

unfoldable pub is_debug_td : Crypto → Str → Bool
unfolding first_bit
is_debug_td c tdattributes_hex = elim (c.hex_decode (trim tdattributes_hex)) [
  | none ↦ true
  | some bytes ↦ if length bytes == 8 then first_bit bytes else true
]
