-- ===== src/Env.antt =====
-- mero-kms/src/config/env.rs: reading the process environment, which is an argument of every
-- function here; and `str::parse` for an unsigned number of 64 bits.
pub mod Numbers
use mero_tee.Prelude.{
  ℕ, ◌+◌, ◌-◌, ◌*◌, Bool, true, false, not, ◌&&◌, Option, none, some, List, [], ◌∷◌, ◌++◌, map, leb,
  if◌then◌else◌, list_eq, is_empty, filter, any, ◌==◌,
}
use mero_tee.Text.{Str, lit, trim, to_ascii_lowercase, split, u64_max, show_nat}
use mero_tee.Errors.{Result, ok, err, ◌>>=◌, map_err}
use mero_tee.Measurement.{HexMeasurement, HexNormalizeError, parse, bad_length, non_hex_characters}

pub data VarError : Type 0 where
  not_present not_unicode : VarError

-- What `std::fs::read_to_string` fails with: no such file, or another error by its text.
pub data IoError : Type 0 where
  not_found : IoError
  other : Str → IoError

-- `std::env::var`
abbrev pub Env : Type 0
Env = Str → Result VarError Str

-- `std::env::var(name).ok()`
unfoldable pub var_ok : Env → Str → Option Str
var_ok env name = elim (env name) [ ok value ↦ some value | err e ↦ none ]

pub data ParseIntError : Type 0 where
  empty invalid_digit pos_overflow : ParseIntError

unfoldable pub parse_int_message : ParseIntError → Str
parse_int_message empty = lit "cannot parse integer from empty string"
parse_int_message invalid_digit = lit "invalid digit found in string"
parse_int_message pos_overflow = lit "number too large to fit in target type"

unfoldable pub is_digit : ℕ → Bool
is_digit c = leb b'0' c && leb c b'9'

unfoldable pub parse_digits : ℕ → Str → Result ParseIntError ℕ
unfolding is_digit
parse_digits acc [] = ok acc
parse_digits acc (c ∷ s) =
    let next = acc * 10 + (c - b'0') in
    let rest = parse_digits next s in
    if not (is_digit c)
    then err invalid_digit
    else if leb next u64_max
    then rest
    else err pos_overflow

unfoldable pub parse_u64 : Str → Result ParseIntError ℕ
unfolding parse_digits
parse_u64 [] = err empty
parse_u64 (c ∷ []) = parse_digits 0 (c ∷ [])
parse_u64 (c ∷ d ∷ s) = if c == b'+' then parse_digits 0 (d ∷ s) else parse_digits 0 (c ∷ d ∷ s)

abbrev pub true_words : List Str
true_words = lit "1" ∷ lit "true" ∷ lit "yes" ∷ lit "on" ∷ []

abbrev pub false_words : List Str
false_words = lit "0" ∷ lit "false" ∷ lit "no" ∷ lit "off" ∷ []

unfoldable pub parse_bool_flag : Str → Result Str Bool
parse_bool_flag raw =
    let word = to_ascii_lowercase (trim raw) in
    if any (list_eq word) true_words
    then ok true
    else if any (list_eq word) false_words
    then ok false
    else err (lit "Invalid boolean value '" ++ (word ++ lit "'"))

abbrev pub not_utf8 : Str → Str
not_utf8 name = name ++ lit " must be valid UTF-8"

unfoldable pub parse_bool_env : Env → Str → Bool → Result Str Bool
parse_bool_env env name default = elim (env name) [
  | ok value ↦ parse_bool_flag value
  | err not_present ↦ ok default
  | err not_unicode ↦ err (not_utf8 name)
]

is_comma : ℕ → Bool
is_comma c = c == b','

unfoldable pub parse_csv : Bool → Str → List Str
unfolding is_comma
parse_csv lowercase value =
    filter (λ s. not (is_empty s))
      (map (λ s. if lowercase then to_ascii_lowercase (trim s) else trim s) (split is_comma value))

unfoldable pub parse_csv_env : Env → Str → Bool → Option (List Str)
parse_csv_env env name lowercase = elim (var_ok env name) [
  | none ↦ none
  | some value ↦ some (parse_csv lowercase value)
]

unfoldable pub read_env_utf8 : Env → Str → Result Str (Option Str)
read_env_utf8 env name = elim (env name) [
  | ok value ↦ ok (some value)
  | err not_present ↦ ok none
  | err not_unicode ↦ err (not_utf8 name)
]

-- `Display` of `HexNormalizeError`
unfoldable pub hex_message : HexNormalizeError → Str
hex_message (bad_length bytes expected_len actual_len) =
    lit "expected "
    ++ (show_nat bytes
        ++ (lit " bytes ("
            ++ (show_nat expected_len
                ++ (lit " hex chars), got " ++ (show_nat actual_len ++ lit " chars")))))
hex_message non_hex_characters = lit "value contains non-hex characters"

-- `collect` into a `Result`: the values, or the first error.
unfoldable pub parse_measurements : List Str → Result Str (List HexMeasurement)
parse_measurements [] = ok []
parse_measurements (entry ∷ entries) = do
  value ← map_err hex_message (parse entry)
  values ← parse_measurements entries
  ok (value ∷ values)

unfoldable pub parse_measurement_list_env : Env → Str → Result Str (List HexMeasurement)
parse_measurement_list_env env name = elim (env name) [
  | ok raw ↦ parse_measurements (parse_csv false raw)
  | err not_present ↦ ok []
  | err not_unicode ↦ err (not_utf8 name)
]
