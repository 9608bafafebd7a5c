-- ===== src/Gate/Tokens.antt =====
-- mero-inference-gate/src/tokens.rs: who may call `/v1`.
pub mod Allowed
use mero_tee.Prelude.{
  ℕ, Bool, true, false, not, ◌&&◌, ◌||◌, Option, none, some, List, [], ◌∷◌, ◌++◌, any, filter,
  is_empty, length, list_eq, ◌==◌, if◌then◌else◌,
}
use mero_tee.Text.{Str, Bytes, lit, split, is_whitespace, strip_prefix, trim, as_bytes}
use mero_tee.Errors.{Result, ok, err, ensure, ok_or, ◌>>=◌, ◌>>◌}
use mero_tee.Crypto.{Crypto}

-- The hashes of the accepted tokens; a set, so none stands there twice.
pub record Tokens : Type 0 where
  pub hashes : List Bytes

unfoldable pub contains_hash : List Bytes → Bytes → Bool
contains_hash hashes hash = any (list_eq hash) hashes

unfoldable pub insert_hash : Bytes → List Bytes → List Bytes
insert_hash hash hashes = if contains_hash hashes hash then hashes else hashes ++ hash ∷ []

is_separator : ℕ → Bool
is_separator c = c == b',' || is_whitespace c

unfoldable pub token_values : Str → List Str
unfolding is_separator
token_values text = filter (λ v. not (is_empty v)) (split is_separator text)

-- The token that the header's value carries.
unfoldable pub bearer : Option Str → Option Str
bearer none = none
bearer (some value) = strip_prefix (lit "Bearer ") value

module _ (c : Crypto) where
  unfoldable pub parse_hash : Str → Result Str Bytes
  parse_hash value = do
    bytes ← ok_or (c.hex_decode value) (lit "access token hash '" ++ (value ++ lit "' is not hex"))
    ensure (length bytes == 32) (lit "access token hash '" ++ (value ++ lit "' is not 32 bytes"))
    ok bytes

  -- The loop over the values, with the set so far.
  unfoldable pub insert_all : List Bytes → List Str → Result Str (List Bytes)
  unfolding insert_hash
  insert_all hashes [] = ok hashes
  insert_all hashes (value ∷ values) = do
    hash ← parse_hash value
    insert_all (insert_hash hash hashes) values

  unfoldable pub parse_tokens : Str → Result Str Tokens
  parse_tokens text = do hashes ← insert_all [] (token_values text); ok record { hashes = hashes }

  unfoldable pub allows : Tokens → Option Str → Bool
  unfolding bearer
  allows tokens authorization = elim (bearer authorization) [
    | none ↦ false
    | some raw ↦
        not (is_empty (trim raw)) && contains_hash tokens.hashes (c.sha256 (as_bytes (trim raw)))
  ]
