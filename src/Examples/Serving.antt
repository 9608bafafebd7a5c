-- ===== src/Examples/Serving.antt =====
-- A replica that starts, joins and answers requests.
use mero_tee.Prelude.{
  length, ◌++◌, ◌≡◌, ◌≢◌, refl, ◌⊎◌, inl, inr, Bool, true, false, none, some, List, [], ◌∷◌,
  replicate, max,
}
use mero_tee.Text.{Str, Bytes, lit}
use mero_tee.Errors.{Result, ok, err}
use mero_tee.Examples.{toy, toy_codec, toy_seal, toy_body, toy_root, toy_measurements, toy_config}
use mero_tee.Examples.Releasing
use mero_tee.Examples.Giving
use mero_tee.Backend.{
  quote, TdxBackend, Root, AttestationResult, derive_key_hex, derive_salted, root_derive_salt,
}
use mero_tee.Crypto.{Collision}
use mero_tee.Cluster.Trusted.{IsTrusted, join_from-IsTrusted}
use mero_tee.Cluster.{verify_peer, join_binding, give_binding}
use mero_tee.Attest.{KmsAttestRequest, bind, plain_attest_binding}
use mero_tee.Attest.Separate.{bind-apart}
use mero_tee.Cluster.Exchange.{join_from-join_handler}
use mero_tee.Cluster.Join.{Joining, JoinResponse, join_from}
use mero_tee.Counters.Replica.{Counters, Inner}
use mero_tee.Counters.Growth.{Grows-refl}
use mero_tee.Counters.Steps.{IsQuiet}
use mero_tee.State.{AppState}
use mero_tee.GetKey.{get_key_handler}
use mero_tee.Router.Startup.{JoinAttempts, join_until_ready, start_replica}
use mero_tee.Router.Joined.{Gives, join_until_ready-joins}
use mero_tee.Router.Started.{start_replica-holds}
use mero_tee.Router.Later.{Later}
use mero_tee.Router.Runs.{Run, get_key_step, stopped, stepped, Run-Later, derive_key_hex_stable}

abbrev state : AppState
state = Releasing.state

abbrev after_key : AppState
after_key = (get_key_handler toy Releasing.libs Releasing.json (Releasing.request_at 120) state).0

quiet : IsQuiet (Releasing.request_at 120).net
quiet = record { at = λ i. Grows-refl i.map }

abbrev Released : Type 0
Released = Run toy Releasing.json Releasing.libs Giving.messages Giving.silent state after_key

released : Released
released =
    stepped state after_key after_key (get_key_step state (Releasing.request_at 120) quiet)
      (stopped after_key)

Run-Later_example : Later state after_key
Run-Later_example =
    Run-Later toy Releasing.json Releasing.libs Giving.messages Giving.silent released

abbrev path : Str
path = lit "n/p/Qm"

abbrev key : Str
key = derive_salted toy toy_root root_derive_salt path

derived : derive_key_hex toy state.backend path ≡ ok key
unfolding derive_key_hex
derived = refl

derive_key_hex_stable_example : derive_key_hex toy after_key.backend path ≡ ok key
derive_key_hex_stable_example =
    derive_key_hex_stable toy Releasing.json Releasing.libs Giving.messages Giving.silent path key
      released derived

abbrev empty : TdxBackend
empty = record {
  root = none;
  own = toy_measurements;
  last_join_error = none;
  last_join_refusal = none;
}

abbrev attest : Bytes → Result Str AttestationResult
attest report_data = ok (record { quote_bytes = report_data; body = toy_body })

abbrev join_response : JoinResponse
join_response = record {
  quote_b64 = [];
  giver_public_b64 = replicate 32 3;
  seal_nonce_b64 = replicate 12 0;
  sealed_root_b64 = replicate 32 5;
}

abbrev unreachable : Joining
unreachable = record {
  joiner_secret = replicate 32 2;
  fetch_nonce = λ url. err [];
  fetch_join = λ url request. err [];
  verify = λ q n b. ok Giving.found;
  attest = attest;
}

abbrev giving : Joining
giving = record unreachable {
  fetch_nonce = λ url. ok (replicate 32 7);
  fetch_join = λ url request. ok join_response;
}

abbrev peer : Str
peer = lit "http://a/"

joined_from :
    join_from toy Giving.messages Giving.silent giving empty Giving.config.attestation_policy peer
    ≡ ok toy_root
unfolding join_from mero_tee.Attest.decode_fixed_b64_32 mero_tee.Backend.quote
    mero_tee.Cluster.verify_peer mero_tee.Cluster.check_peer mero_tee.Measurement.is_debug_td
    mero_tee.Text.trim mero_tee.Text.eq_ignore_ascii_case mero_tee.Cluster.measurements_eq
    mero_tee.Backend.measurements_of mero_tee.Cluster.open_root mero_tee.Cluster.root_seal_key
    mero_tee.Backend.root_from_bytes
joined_from = refl

gives :
    Gives toy Giving.messages Giving.silent Giving.config.attestation_policy empty
      ((peer, unreachable) ∷ (peer, giving) ∷ [])
unfolding Gives
gives = inr (inl (toy_root, joined_from))

abbrev rounds : List JoinAttempts
rounds = ((peer, unreachable) ∷ []) ∷ ((peer, unreachable) ∷ (peer, giving) ∷ []) ∷ []

abbrev looped : TdxBackend × Bool
looped =
    join_until_ready toy Giving.messages Giving.silent Giving.config.attestation_policy empty rounds

join_until_ready-joins_example : (looped.1 ≡ true) × (root : Root) × (looped.0.root ≡ some root)
join_until_ready-joins_example =
    join_until_ready-joins toy Giving.messages Giving.silent Giving.config.attestation_policy empty
      (((peer, unreachable) ∷ []) ∷ []) ((peer, unreachable) ∷ (peer, giving) ∷ []) [] gives

abbrev starts : Result mero_tee.Backend.StartupError (TdxBackend × Counters)
starts = start_replica toy Giving.silent attest toy_config (replicate 32 5) (replicate 16 1) 0

abbrev fallback : Counters
fallback = mero_tee.Counters.Replica.new [] 1 []

abbrev started : TdxBackend × Counters
started = elim starts [ ok s ↦ s | err e ↦ (empty, fallback) ]

starts_ok : starts ≡ ok (started.0, started.1)
unfolding start_replica mero_tee.Backend.new mero_tee.Backend.quote mero_tee.Measurement.is_debug_td
    mero_tee.Text.trim mero_tee.Backend.measurements_of mero_tee.Text.to_ascii_lowercase
    mero_tee.Backend.set_root
starts_ok = refl

start_replica-holds_example :
    (started.1.inner.map ≡ [])
    × (started.1.replicas ≡ max toy_config.replicas 1)
    × (((toy_config.kms_bootstrap ≡ true)
          × (started.0.root ≡ some (record { bytes = replicate 32 5 }))
          × (started.1.inner.ready ≡ true))
        ⊎ ((toy_config.kms_bootstrap ≡ false)
            × (started.0.root ≡ none)
            × (started.1.inner.ready ≡ false)))
start_replica-holds_example =
    start_replica-holds toy Giving.silent attest toy_config (replicate 32 5) (replicate 16 1) 0
      started.0 started.1 starts_ok

join_from-IsTrusted_example :
    IsTrusted toy Giving.messages Giving.silent giving empty Giving.config.attestation_policy peer
      toy_root
join_from-IsTrusted_example =
    join_from-IsTrusted toy Giving.messages Giving.silent giving empty
      Giving.config.attestation_policy peer toy_root joined_from

-- The joiner of a giver that answers.
abbrev connected : Joining
connected = record unreachable {
  fetch_nonce = λ url. ok Giving.nonce;
  fetch_join = λ url request. ok Giving.response;
  attest = λ report_data. ok (record { quote_bytes = []; body = toy_body });
}

accepts :
    (binding : Bytes) (q : AttestationResult)
    → quote Giving.giving.attest (Giving.nonce ++ binding) ≡ ok q
    → verify_peer toy Giving.messages connected.verify empty Giving.config.attestation_policy
        q.quote_bytes Giving.nonce binding
      ≡ ok tt
unfolding verify_peer mero_tee.Cluster.check_peer mero_tee.Measurement.is_debug_td
    mero_tee.Text.trim mero_tee.Text.eq_ignore_ascii_case mero_tee.Cluster.measurements_eq
    mero_tee.Backend.measurements_of
accepts binding q h = refl

nonce_size : length Giving.nonce ≡ 32
unfolding mero_tee.Cluster.issue mero_tee.Cluster.tag mero_tee.Text.to_be_bytes
    mero_tee.Cluster.join_nonce_domain lit
nonce_size = refl

own_quoted :
    quote connected.attest (Giving.nonce ++ join_binding toy (replicate 32 2))
    ≡ ok (record { quote_bytes = []; body = toy_body })
unfolding quote
own_quoted = refl

join_from-join_handler_example :
    join_from toy Giving.messages Giving.silent connected empty Giving.config.attestation_policy
      peer
    ≡ ok toy_root
join_from-join_handler_example =
    join_from-join_handler toy Giving.messages Giving.silent toy_codec toy_seal Giving.giving
      Giving.state Giving.after_join toy_root refl refl refl refl connected refl empty
      Giving.config.attestation_policy peer Giving.nonce nonce_size
      (record { quote_bytes = []; body = toy_body }) Giving.response refl own_quoted refl
      Giving.given accepts

abbrev plain_request : KmsAttestRequest
plain_request = record {
  nonce_b64 = [];
  binding_b64 = none;
  transport_key = false;
  event_log = false;
  capabilities = false;
}

abbrev plain_bound : Bytes
plain_bound = plain_attest_binding toy (replicate 32 5)

bind-apart_example :
    ((plain_bound ≢ join_binding toy (replicate 32 2))
      × (plain_bound ≢ give_binding toy (replicate 32 2) (replicate 32 3) [] []))
    ⊎ Collision toy
unfolding bind
bind-apart_example =
    bind-apart toy empty plain_request (replicate 32 5) plain_bound none (replicate 32 2)
      (replicate 32 3) [] [] refl
