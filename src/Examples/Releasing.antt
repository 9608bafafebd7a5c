-- ===== src/Examples/Releasing.antt =====
-- Key releases at concrete inputs.
use mero_tee.Prelude.{
  list_eq, ℕ, ◌≡◌, refl, true, false, none, some, [], ◌∷◌, replicate, arith, ◌≤◌,
}
use mero_tee.Text.{Str, Bytes, lit, to_ascii_lowercase, as_bytes, u64_max}
use mero_tee.Errors.{ServiceError, ok, err, ok-injective}
use mero_tee.Examples.{toy_codec, toy_mac, toy_config, toy, toy_backend, toy_body, toy_root}
use mero_tee.Backend.{challenge_key_salt, derive_salted}
use mero_tee.Policy.{Role, node, agent, VerificationResult, default_policy, AttestationPolicy}
use mero_tee.Challenge.{issue, spend}
use mero_tee.Challenge.Spent.{IsMemory}
use mero_tee.Counters.Replica
use mero_tee.Counters.Replica.{CounterJson, Net}
use mero_tee.Config.{Config}
use mero_tee.State.{AppState}
use mero_tee.PeerId.{is_base58}
use mero_tee.GetKey.{
  Libraries, Request, GetKeyRequest, GetKeyResponse, PublicKey, release_key, key_path_for_peer,
}
use mero_tee.GetKey.Authorized.{expiry_of}
use mero_tee.GetKey.Release.{released_once, release_all, IsBefore}
use mero_tee.GetKey.Passed.{IsPassed, release_key-passes}
use mero_tee.GetKey.Paths.{key_path_for_peer-injective, namespace_of}

abbrev peer : Str
peer = b'Q' ∷ b'm' ∷ []

abbrev policy : AttestationPolicy
policy = record { enforce_measurement_policy = false; allowed_tcb_statuses = []; entries = [] }

abbrev config : Config
config = record toy_config {
  challenge_ttl_secs = 60;
  max_consumed_challenges = 2;
  kms_profile = b'p' ∷ [];
  key_namespace_prefix = b'n' ∷ [];
  agent_key_namespace_prefix = b'a' ∷ [];
  attestation_policy = policy;
  require_sealed_key_release = false;
}

abbrev pub state : AppState
state = record {
  config = config;
  backend = toy_backend;
  join_nonces = record { key = []; spent = [] };
  spent_challenges = [];
  counters = Replica.new [] 1 [];
}

abbrev found : VerificationResult
found = record {
  is_valid = true;
  quote_verified = true;
  nonce_verified = true;
  application_hash_verified = true;
  tcb_status = none;
  body = toy_body;
}

abbrev pub libs : Libraries
libs = record {
  verify_attestation = λ q n b. ok found;
  decode_public_key = λ b. ok (record { peer_id = b; verify = λ m s. list_eq m s });
  payload_to_vec = λ fields. ok [];
  record_to_vec = λ r. none;
}

abbrev pub json : CounterJson
json = record {
  read_to = λ b. err [];
  read_from = λ t. err [];
  merge_to = λ b. err [];
  merge_from = λ t. err [];
  answer_to = λ b. err [];
  answer_from = λ t. err [];
  signed_from = λ b. none;
}

abbrev challenge : Str
challenge =
    (issue toy (derive_salted toy toy_root challenge_key_salt (lit "challenge")) (replicate 16 9)
      peer 160).0

abbrev asked : GetKeyRequest
asked = record {
  challenge_id = challenge;
  quote_b64 = [];
  peer_id = peer;
  peer_public_key_b64 = peer;
  signature_b64 = [];
  seal_to_b64 = none;
  rollback_node_id = none;
}

abbrev silent : Net
silent = record { ask = λ url m. none; meanwhile = λ i. i }

abbrev pub request_at : ℕ → Request
request_at moment = record {
  request = asked;
  opened_at = ok moment;
  spent_at = ok moment;
  net = silent;
  read_nonce = [];
  session_id = [];
  seal_nonce = [];
}

abbrev response : GetKeyResponse
response = record {
  key = some (
      derive_salted toy toy_root mero_tee.Backend.root_derive_salt
        (key_path_for_peer config node peer));
  sealed_key_b64 = none;
  seal_nonce_b64 = none;
}

after_first : AppState
after_first = (release_key toy libs json (request_at 120) state).0

first_released : release_key toy libs json (request_at 120) state ≡ (after_first, ok response)
unfolding after_first release_key mero_tee.GetKey.authorize mero_tee.GetKey.decode_seal_to
    mero_tee.GetKey.open_challenge mero_tee.Backend.challenge_key mero_tee.Challenge.open_id
    mero_tee.Challenge.decode_id issue mero_tee.Challenge.body_of mero_tee.Text.to_be_bytes
    mero_tee.Challenge.mac mero_tee.Challenge.tag_domain lit as_bytes mero_tee.Text.from_be_bytes
    mero_tee.Text.saturating_add mero_tee.GetKey.verify_peer_signature_for
    mero_tee.GetKey.signature_payload mero_tee.GetKey.verify_and_enforce_attestation
    mero_tee.GetKey.require_valid mero_tee.Policy.enforce_attestation_policy
    mero_tee.GetKey.read_counters mero_tee.GetKey.spend_challenge spend
    mero_tee.Challenge.record_spent mero_tee.Map.contains_key mero_tee.Map.get mero_tee.Map.retain
    mero_tee.Backend.derive_key_hex mero_tee.Backend.derive mero_tee.Backend.with_root
    mero_tee.GetKey.respond derive_salted mero_tee.Challenge.sized challenge_key_salt
first_released = refl

expiry_is : expiry_of toy libs challenge ≡ 160
unfolding expiry_of mero_tee.Challenge.decode_id mero_tee.Challenge.sized issue
    mero_tee.Challenge.body_of mero_tee.Text.to_be_bytes mero_tee.Challenge.mac
    mero_tee.Challenge.tag_domain lit as_bytes mero_tee.Text.from_be_bytes derive_salted
    challenge_key_salt
expiry_is = refl

read_in_time :
    (moment : ℕ)
    → moment ≤ 160
    → (m : ℕ) → (request_at moment).spent_at ≡ ok m
    → m ≤ expiry_of toy libs challenge
read_in_time moment early m read =
    let same : moment ≡ m = ok-injective read in omega (arith, expiry_is)

no-IsMemory : IsMemory 2 []
no-IsMemory = record { sorted = tt; bounded = omega arith }

in_time : IsBefore toy libs json (expiry_of toy libs challenge) (request_at 130 ∷ [])
unfolding IsBefore
in_time = (read_in_time 130 (omega arith), tt)

released_once_example :
    (e : ServiceError) × ((release_key toy libs json
        (request_at 140)
        (release_all toy libs json after_first (request_at 130 ∷ []))).1
      ≡ err e)
released_once_example =
    released_once toy libs json state after_first (request_at 120) (request_at 140) response
      (request_at 130 ∷ []) no-IsMemory first_released refl in_time (read_in_time 140 (omega arith))

release_key-passes_example : IsPassed toy libs state after_first (request_at 120)
release_key-passes_example =
    release_key-passes toy libs toy_codec toy_mac json (request_at 120) state after_first response
      no-IsMemory.sorted first_released

key_path_for_peer-injective_example :
    (peer ≡ peer) × (namespace_of config node ≡ namespace_of config node)
unfolding is_base58
key_path_for_peer-injective_example =
    key_path_for_peer-injective config node node peer peer refl refl refl
