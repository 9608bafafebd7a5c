-- ===== src/Examples/Raising.antt =====
-- A raise of a node's counter at a concrete request.
use mero_tee.Prelude.{◌≡◌, refl, true, false, none, [], ◌∷◌, ◌++◌, replicate}
use mero_tee.Text.{Str, Bytes, lit, as_bytes, to_be_bytes}
use mero_tee.Errors.{ok, err}
use mero_tee.Examples.{toy_config, toy, toy_backend, toy_digest, toy_mac}
use mero_tee.Counters.{Entry, ClusterCounters, max_entry}
use mero_tee.Counters.Replica.{CounterJson, Net}
use mero_tee.Config.{Config}
use mero_tee.State.{AppState}
use mero_tee.Rollback.{
  RollbackRequest, RollbackAck, Rounds, Kind, raise_call, raise_domain, ack_domain, request_message,
  authenticate, acknowledge, answer,
}
use mero_tee.Rollback.Calls.{IsAuthentic, acked, asked, answer-raises}

abbrev config : Config
config = record toy_config {
  challenge_ttl_secs = 60;
  max_consumed_challenges = 2;
  kms_profile = b'p' ∷ [];
  key_namespace_prefix = b'n' ∷ [];
  agent_key_namespace_prefix = b'a' ∷ [];
  attestation_policy = record {
    enforce_measurement_policy = false;
    allowed_tcb_statuses = [];
    entries = [];
  };
  require_sealed_key_release = false;
}

abbrev state : AppState
state = record {
  config = config;
  backend = toy_backend;
  join_nonces = record { key = []; spent = [] };
  spent_challenges = [];
  counters = record {
    replica_id = b'r' ∷ [];
    replicas = 1;
    peers = [];
    inner = record { map = []; ready = true; formed = true; genesis_until = none };
  };
}

abbrev json : CounterJson
json = record {
  read_to = λ b. err [];
  read_from = λ t. err [];
  merge_to = λ b. err [];
  merge_from = λ t. err [];
  answer_to = λ b. err [];
  answer_from = λ t. err [];
  signed_from = λ b. none;
}

abbrev silent : Net
silent = record { ask = λ url m. none; meanwhile = λ i. i }

abbrev rounds : Rounds
rounds = record {
  first_net = silent;
  read_net = silent;
  net = silent;
  first_nonce = [];
  read_nonce = [];
  nonce = [];
}

abbrev peer : Str
peer = b'Q' ∷ b'm' ∷ []

abbrev session_key : Bytes
session_key = replicate 32 0

abbrev request : RollbackRequest
request = record {
  peer_id = peer;
  node_id = 4;
  session_id_b64 = replicate 16 1;
  generation = 1;
  mark = 7;
  nonce_b64 = replicate 32 2;
  mac_b64 =
      toy_digest session_key
        (request_message raise_domain peer 4 (replicate 16 1) 1 7 (replicate 32 2));
}

abbrev ack : RollbackAck
ack =
    acknowledge toy (replicate 32 2) session_key 4
      (record { epoch = 0; nodes = (4, record { generation = 1; mark = 7 }) ∷ [] })

after_raise : AppState
after_raise = (answer toy json rounds request raise_call state).0

answers : answer toy json rounds request raise_call state ≡ (after_raise, ok ack)
unfolding after_raise answer authenticate mero_tee.Rollback.decode_session_id
    mero_tee.Attest.decode_fixed_b64_32 mero_tee.Backend.rollback_session_key request_message
    raise_domain lit as_bytes mero_tee.Text.utf8 mero_tee.Text.to_be_bytes
    mero_tee.Rollback.domain_of mero_tee.Rollback.move_counter mero_tee.Counters.Ops.raise_entry
    mero_tee.Counters.Ops.write mero_tee.Counters.Replica.require_ready
    mero_tee.Counters.Replica.merge_own mero_tee.Counters.merge_cluster mero_tee.Counters.merge
    mero_tee.Counters.count_new mero_tee.Counters.merge_nodes max_entry
    mero_tee.Counters.compare_entry mero_tee.Map.contains_key mero_tee.Map.get mero_tee.Map.insert
    mero_tee.Backend.with_root mero_tee.Backend.derive_salted mero_tee.Backend.rollback_session_salt
    acknowledge mero_tee.Rollback.ack_mac mero_tee.Rollback.ack_domain
answers = refl

answer-raises_example :
    (nonce : Bytes) × (key : Bytes) × IsAuthentic toy json state request raise_domain nonce key
    × (max_entry (acked toy json ack) (asked toy json request) ≡ acked toy json ack)
    × (ack.mac_b64
        ≡ toy.base64_encode (
            toy.hmac key (
              ack_domain
              ++ (nonce
                  ++ (to_be_bytes ack.epoch
                      ++ (to_be_bytes ack.generation ++ to_be_bytes ack.mark))))))
answer-raises_example = answer-raises toy json toy_mac rounds request state after_raise ack answers
