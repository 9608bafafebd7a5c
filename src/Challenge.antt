-- ===== src/Challenge.antt =====
-- mero-kms/src/stateless_challenge.rs: a challenge that any replica can check, and the memory of
-- those that released a key. The key is 32 bytes; the random bytes are an argument.
pub mod Tokens
pub mod Spent
pub mod Abstract
use mero_tee.Prelude.{
  ℕ, suc, ◌+◌, ◌*◌, String, Bool, true, false, not, Option, none, some, List, [], ◌∷◌, ◌++◌, ltb,
  leb, ◌==◌, if◌then◌else◌, length, take, drop,
}
use mero_tee.Text.{Str, Bytes, lit, as_bytes, to_be_bytes, from_be_bytes, saturating_add}
use mero_tee.Errors.{
  Result, Service, ServiceError, ok, err, ensure, ok_or, ◌>>=◌, ◌>>◌, invalid_challenge,
  rate_limited,
}
use mero_tee.Map.{Map, get, contains_key, insert, retain}
use mero_tee.Map.Order.{list_ord}
use mero_tee.Crypto.{Crypto}

unfoldable pub domain : Bytes
domain = lit "mero-kms/tdx-challenge/v1" ++ 0 ∷ []

unfoldable pub tag_domain : Bytes
tag_domain = lit "mero-kms/tdx-challenge-id/v1" ++ 0 ∷ []

abbrev pub random_bytes : ℕ
random_bytes = 16

abbrev pub body_bytes : ℕ
body_bytes = 24

abbrev pub tag_bytes : ℕ
tag_bytes = 32

abbrev pub id_bytes : ℕ
id_bytes = 56

abbrev pub clock_skew_secs : ℕ
clock_skew_secs = 30

abbrev pub malformed : ServiceError
malformed = invalid_challenge (lit "challenge ID must be 112 hex characters")

abbrev pub not_issued : ServiceError
not_issued =
    invalid_challenge
      (lit "Challenge validation failed: not a challenge this KMS issued to this peer")

abbrev pub expired : ServiceError
expired = invalid_challenge (lit "Challenge validation failed: challenge expired")

abbrev pub too_late : ServiceError
too_late =
    invalid_challenge
      (lit "Challenge validation failed: challenge expires later than this KMS issues")

abbrev pub already_used : ServiceError
already_used = invalid_challenge (lit "Challenge validation failed: challenge already used")

abbrev pub too_many : ServiceError
too_many = rate_limited (lit "Too many recent key requests. Retry shortly.")

-- `<[u8; N]>::try_from`
unfoldable pub sized : ℕ → Bytes → Option Bytes
sized n bytes = if length bytes == n then some bytes else none

module _ (c : Crypto) where
  -- `mac`, over the domain, the body and the peer id.
  unfoldable pub mac : Bytes → Bytes → Bytes → Str → Bytes
  mac key dom body peer_id = c.hmac key (dom ++ (body ++ as_bytes peer_id))

  unfoldable pub nonce : Bytes → Bytes → Str → Bytes
  nonce key body peer_id = mac key domain body peer_id

  -- The id's body: what the nonce and the tag are computed over.
  unfoldable pub body_of : Bytes → ℕ → Bytes
  body_of random expires_at = random ++ to_be_bytes expires_at

  unfoldable pub issue : Bytes → Bytes → Str → ℕ → Str × Bytes
  issue key random peer_id expires_at =
      let body = body_of random expires_at in
      (c.hex_encode (body ++ mac key tag_domain body peer_id), nonce key body peer_id)

  -- `hex::decode(..).ok().and_then(|bytes| bytes.try_into().ok())`
  unfoldable pub decode_id : Str → Option Bytes
  unfolding sized
  decode_id challenge_id = elim (c.hex_decode challenge_id) [
    | none ↦ none
    | some bytes ↦ sized id_bytes bytes
  ]

  unfoldable pub open_id : Bytes → Str → Str → ℕ → ℕ → Service (Bytes × ℕ)
  open_id key challenge_id peer_id now ttl_secs = do
    id ← ok_or (decode_id challenge_id) malformed
    let body = take body_bytes id
    let tag = drop body_bytes id
    ensure (c.hmac_verify key (tag_domain ++ (body ++ as_bytes peer_id)) tag) not_issued
    let expires_at = from_be_bytes (drop random_bytes body)
    ensure (not (ltb expires_at now)) expired
    ensure (leb expires_at (saturating_add (saturating_add now ttl_secs) clock_skew_secs)) too_late
    ok (nonce key body peer_id, expires_at)

-- The challenge ids that released a key, each kept until it expires.
abbrev pub SpentChallenges : Type 0
SpentChallenges = Map Str ℕ

unfoldable pub record_spent : SpentChallenges → Str → ℕ → ℕ → SpentChallenges × Service (Unit {0})
record_spent spent challenge_id expires_at capacity =
    if contains_key spent challenge_id
    then (spent, err already_used)
    else if leb capacity (length spent)
    then (spent, err too_many)
    else (insert spent challenge_id expires_at, ok tt)

-- `SpentChallenges::spend`
unfoldable pub spend : SpentChallenges → Str → ℕ → ℕ → ℕ → SpentChallenges × Service (Unit {0})
unfolding record_spent
spend spent challenge_id expires_at now capacity =
    record_spent (retain (λ expiry. leb now expiry) spent) challenge_id expires_at capacity
