-- ===== src/Examples/Giving.antt =====
-- A join that is given the root, at a concrete request.
use mero_tee.Prelude.{ℕ, ◌≡◌, refl, Bool, true, false, Option, none, some, List, [], ◌∷◌, replicate}
use mero_tee.Text.{Str, Bytes, lit}
use mero_tee.Errors.{ServiceError, ok}
use mero_tee.Examples.{toy_config, toy, toy_backend, toy_body, toy_mac}
use mero_tee.Map.Order.{list_ord}
use mero_tee.Map.Laws.{IsSorted}
use mero_tee.Policy.{VerificationResult}
use mero_tee.Cluster.{JoinNonces, Messages, issue}
use mero_tee.Cluster.Join.{Giving, JoinRequest, JoinResponse, join_handler}
use mero_tee.Cluster.Given.{IsGiven, join_handler-gives}
use mero_tee.Config.{Config}
use mero_tee.State.{AppState}
use mero_tee.Counters.Replica

abbrev pub config : Config
config = record toy_config {
  challenge_ttl_secs = 60;
  max_consumed_challenges = 2;
  kms_profile = [];
  key_namespace_prefix = [];
  agent_key_namespace_prefix = [];
  attestation_policy = record {
    enforce_measurement_policy = true;
    allowed_tcb_statuses = (b'o' ∷ b'k' ∷ []) ∷ [];
    entries = [];
  };
  require_sealed_key_release = true;
}

abbrev nonces : JoinNonces
nonces = record { key = replicate 32 1; spent = [] }

abbrev pub state : AppState
state = record {
  config = config;
  backend = toy_backend;
  join_nonces = nonces;
  spent_challenges = [];
  counters = Replica.new [] 1 [];
}

abbrev pub messages : Messages
messages = record { failed_verification = λ v. []; other_measurements = λ m. [] }

abbrev pub found : VerificationResult
found = record {
  is_valid = true;
  quote_verified = true;
  nonce_verified = true;
  application_hash_verified = true;
  tcb_status = some (b'O' ∷ b'k' ∷ []);
  body = toy_body;
}

abbrev pub giving : Giving
giving = record {
  opened_at = ok 120;
  spent_at = ok 121;
  giver_secret = replicate 32 3;
  seal_nonce = replicate 12 0;
  verify = λ q n b. ok found;
  attest = λ report_data. ok (record { quote_bytes = report_data; body = toy_body });
}

abbrev pub nonce : Bytes
nonce = issue toy nonces (replicate 8 4) 100

abbrev request : JoinRequest
request = record { nonce_b64 = nonce; joiner_public_b64 = replicate 32 2; quote_b64 = [] }

abbrev pub silent : ServiceError → Str
silent e = []

abbrev pub after_join : AppState
after_join = (join_handler toy messages silent giving request state).0

abbrev pub response : JoinResponse
response = record {
  quote_b64 = mero_tee.Prelude.◌++◌ nonce (
      mero_tee.Cluster.give_binding toy (replicate 32 2) (replicate 32 3) (replicate 12 0)
        (replicate 32 5));
  giver_public_b64 = replicate 32 3;
  seal_nonce_b64 = replicate 12 0;
  sealed_root_b64 = replicate 32 5;
}

pub given : join_handler toy messages silent giving request state ≡ (after_join, ok response)
unfolding join_handler mero_tee.Cluster.Join.require_peer mero_tee.Attest.decode_fixed_b64_32 issue
    mero_tee.Cluster.tag mero_tee.Cluster.join_nonce_domain lit mero_tee.Text.to_be_bytes
    mero_tee.Text.from_be_bytes mero_tee.Cluster.open_nonce mero_tee.Cluster.differ
    mero_tee.Cluster.verify_peer mero_tee.Cluster.check_peer mero_tee.Measurement.is_debug_td
    mero_tee.Text.trim mero_tee.Text.eq_ignore_ascii_case mero_tee.Text.to_ascii_lowercase
    mero_tee.Cluster.measurements_eq mero_tee.Backend.measurements_of mero_tee.Cluster.spend
    mero_tee.Map.retain mero_tee.Map.contains_key mero_tee.Map.get mero_tee.Backend.with_root
    mero_tee.Cluster.seal_root mero_tee.Cluster.root_seal_key mero_tee.Backend.quote
    mero_tee.Cluster.give_binding mero_tee.Cluster.give_domain
given = refl

none_spent : IsSorted nonces.spent
none_spent = tt

join_handler-gives_example : IsGiven toy messages silent giving request state after_join
join_handler-gives_example =
    join_handler-gives toy messages silent toy_mac giving request state after_join response
      none_spent given
