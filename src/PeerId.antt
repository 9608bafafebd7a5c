-- ===== src/PeerId.antt =====
-- mero-kms/src/handlers/challenge.rs: the shape of a peer id, and the issue of a challenge.
use mero_tee.Prelude.{ℕ, Bool, not, ◌&&◌, ◌||◌, ◌++◌, leb, ◌==◌, all, is_empty}
use mero_tee.Text.{Str, Bytes, lit, trim, len, show_nat, saturating_add}
use mero_tee.Errors.{Service, ok, ensure, ◌>>=◌, ◌>>◌, invalid_peer_id}
use mero_tee.Crypto.{Crypto}
use mero_tee.Backend.{challenge_key}
use mero_tee.State.{AppState, Clock, now}
use mero_tee.Challenge.{issue}

abbrev pub max_peer_id_length : ℕ
max_peer_id_length = 128

-- The alphabet of base58btc.
unfoldable pub is_base58 : ℕ → Bool
is_base58 c =
    leb b'1' c && leb c b'9'
    || leb b'A' c && leb c b'H'
    || leb b'J' c && leb c b'N'
    || leb b'P' c && leb c b'Z'
    || leb b'a' c && leb c b'k'
    || leb b'm' c && leb c b'z'

unfoldable pub validate_peer_id_shape : Str → Service (Unit {0})
unfolding is_base58
validate_peer_id_shape peer_id = do
  let trimmed = trim peer_id
  ensure (len trimmed == len peer_id)
      (invalid_peer_id (lit "peer ID must not have leading or trailing whitespace"))
  ensure (not (is_empty trimmed)) (invalid_peer_id (lit "peer ID must not be empty"))
  ensure (leb (len trimmed) max_peer_id_length)
      (invalid_peer_id (lit "peer ID exceeds max length " ++ show_nat max_peer_id_length))
  ensure (all is_base58 trimmed) (invalid_peer_id (lit "peer ID contains non-base58btc characters"))

pub record ChallengeResponse : Type 0 where
  pub challenge_id : Str
  pub nonce_b64 : Str
  pub expires_at : ℕ

-- `challenge_handler`, with the random bytes that `issue` draws.
unfoldable pub challenge_handler :
    Crypto → Clock → Bytes → AppState → Str → Service ChallengeResponse
challenge_handler c clock random state peer_id = do
  validate_peer_id_shape peer_id
  key ← challenge_key c state.backend
  moment ← now clock
  let expires_at = saturating_add moment state.config.challenge_ttl_secs
  let (challenge_id, nonce) = issue c key random peer_id expires_at
  ok (record {
    challenge_id = challenge_id;
    nonce_b64 = c.base64_encode nonce;
    expires_at = expires_at;
  })
