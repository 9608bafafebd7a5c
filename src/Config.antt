-- ===== src/Config.antt =====
-- mero-kms/src/config/mod.rs: the service's configuration and how it is read at startup. The
-- environment, the text of the image's profile file and the parser of socket addresses are
pub mod Profile
pub mod Load
pub mod Checks
pub mod Apart
pub mod Entries
pub mod Replicas
-- arguments.
use mero_tee.Prelude.{
  ℕ, ◌<◌, Bool, true, false, not, ◌&&◌, ◌||◌, Option, none, some, List, [], ◌∷◌, ◌++◌, map, ltb,
  leb, if◌then◌else◌, list_eq, is_empty, filter, any, ◌==◌, max, length,
}
use mero_tee.Text.{Str, lit, trim, to_ascii_lowercase, eq_ignore_ascii_case, trim_matches, show_nat}
use mero_tee.Errors.{Result, ok, err, ensure, ◌>>=◌, ◌>>◌, map_err}
use mero_tee.Measurement.{HexMeasurement}
use mero_tee.Policy.{
  Role, node, agent, PolicyEntry, Field, register_fields, AttestationPolicy, default_policy,
  validate_policy_requirements, as_str, join_texts,
}
use mero_tee.Counters.{max_replicas}
use mero_tee.Env.{
  Env, ParseIntError, var_ok, parse_u64, parse_int_message, parse_bool_env, parse_csv_env,
  read_env_utf8, parse_measurement_list_env,
}

abbrev pub known_profiles : List Str
known_profiles = lit "debug" ∷ lit "debug-read-only" ∷ lit "locked-read-only" ∷ []

abbrev pub image_profile_path : Str
image_profile_path = lit "/etc/mero-kms/image-profile"

-- The bytes of an address, and a port.
abbrev pub SocketAddr : Type 0
SocketAddr = List ℕ × ℕ

pub record Config : Type 0 where
  pub listen_addr : SocketAddr
  pub challenge_ttl_secs : ℕ
  pub max_consumed_challenges : ℕ
  pub kms_profile : Str
  pub key_namespace_prefix : Str
  pub agent_key_namespace_prefix : Str
  pub cors_allowed_origins : List Str
  pub attestation_policy : AttestationPolicy
  pub require_sealed_key_release : Bool
  pub kms_bootstrap : Bool
  pub cluster_peers : List Str
  pub join_retry_secs : ℕ
  pub replicas : ℕ

abbrev pub default_listen_addr : SocketAddr
default_listen_addr = (0 ∷ 0 ∷ 0 ∷ 0 ∷ [], 8080)

abbrev pub default_key_prefix : Str
default_key_prefix = lit "merod/storage"

abbrev pub default_agent_key_prefix : Str
default_agent_key_prefix = lit "mero-agent/storage"

unfoldable pub default_config : Config
default_config = record {
  listen_addr = default_listen_addr;
  challenge_ttl_secs = 60;
  max_consumed_challenges = 10000;
  kms_profile = lit "locked-read-only";
  key_namespace_prefix = default_key_prefix;
  agent_key_namespace_prefix = default_agent_key_prefix;
  cors_allowed_origins = [];
  attestation_policy = default_policy;
  require_sealed_key_release = true;
  kms_bootstrap = false;
  cluster_peers = [];
  join_retry_secs = 10;
  replicas = 1;
}

-- `unwrap_or`
unfoldable pub unwrap_or {ℓ} : {A : Type ℓ} → Option A → A → A
unwrap_or none default = default
unwrap_or (some a) default = a

-- `.ok().and_then(|v| v.parse().ok()).unwrap_or(default)`: what does not parse is the default.
unfoldable pub number_or : Env → Str → ℕ → ℕ
number_or env name default = elim (var_ok env name) [
  | none ↦ default
  | some value ↦ elim (parse_u64 value) [ ok n ↦ n | err e ↦ default ]
]

unfoldable pub listen_addr_from_env : (Str → Option SocketAddr) → Env → SocketAddr
unfolding unwrap_or
listen_addr_from_env parse_addr env = elim (var_ok env (lit "LISTEN_ADDR")) [
  | none ↦ default_listen_addr
  | some value ↦ unwrap_or (parse_addr value) default_listen_addr
]

-- A number that is set is trimmed and parsed, and refused when it does not parse.
unfoldable pub strict_number : Env → Str → ℕ → Result Str ℕ
strict_number env name default = elim (var_ok env name) [
  | none ↦ ok default
  | some value ↦ map_err (λ e. name ++ (lit ": " ++ parse_int_message e)) (parse_u64 (trim value))
]

unfoldable pub replicas_from_env : Env → List Str → Result Str ℕ
replicas_from_env env cluster_peers = do
  replicas ← strict_number env (lit "MERO_KMS_REPLICAS") 1
  ensure (leb 1 replicas && leb replicas max_replicas)
      (lit "MERO_KMS_REPLICAS must be 1 to " ++ show_nat max_replicas)
  ensure (not (ltb 1 replicas && is_empty cluster_peers)) (
      lit "MERO_KMS_REPLICAS="
      ++ (show_nat replicas ++ lit " needs the other replicas in MERO_KMS_PEERS"))
  ok replicas

unfoldable pub cluster_from_env : Env → Result Str (Bool × List Str × ℕ)
unfolding unwrap_or
cluster_from_env env = do
  kms_bootstrap ← parse_bool_env env (lit "MERO_KMS_BOOTSTRAP") false
  let cluster_peers = unwrap_or (parse_csv_env env (lit "MERO_KMS_PEERS") false) []
  join_retry_secs ← strict_number env (lit "MERO_KMS_JOIN_RETRY_SECS") 10
  ensure (kms_bootstrap || not (is_empty cluster_peers))
      (lit "set MERO_KMS_BOOTSTRAP=true or MERO_KMS_PEERS")
  ok (kms_bootstrap, cluster_peers, max join_retry_secs 1)

unfoldable pub is_slash : ℕ → Bool
is_slash c = c == b'/'

unfoldable pub key_prefix_from_env : Env → Str → Str → Str
key_prefix_from_env env name default = elim (var_ok env name) [
  | none ↦ default
  | some value ↦
      let prefix = trim_matches is_slash value in if is_empty prefix then default else prefix
]

unfoldable pub entry_from_env : Env → Role → Str → Result Str PolicyEntry
entry_from_env env role env_prefix = do
  mrtd ← parse_measurement_list_env env (env_prefix ++ (lit "ALLOWED_" ++ lit "MRTD"))
  rtmr0 ← parse_measurement_list_env env (env_prefix ++ (lit "ALLOWED_" ++ lit "RTMR0"))
  rtmr1 ← parse_measurement_list_env env (env_prefix ++ (lit "ALLOWED_" ++ lit "RTMR1"))
  rtmr2 ← parse_measurement_list_env env (env_prefix ++ (lit "ALLOWED_" ++ lit "RTMR2"))
  rtmr3 ← parse_measurement_list_env env (env_prefix ++ (lit "ALLOWED_" ++ lit "RTMR3"))
  ok record {
    role = role;
    allowed_mrtd = mrtd;
    allowed_rtmr0 = rtmr0;
    allowed_rtmr1 = rtmr1;
    allowed_rtmr2 = rtmr2;
    allowed_rtmr3 = rtmr3;
  }

unfoldable pub is_set : Field → Bool
is_set (label, allowlist) = not (is_empty allowlist)

unfoldable pub missing_fields : Str → List Field → List Str
unfolding is_set
missing_fields env_prefix fields =
    map (λ f. env_prefix ++ (lit "ALLOWED_" ++ f.0)) (filter (λ f. not (is_set f)) fields)

unfoldable pub count_set : List Field → ℕ
unfolding is_set
count_set fields = length (filter is_set fields)

abbrev pub incomplete : Role → Str → List Field → Str
incomplete role env_prefix fields =
    lit "The "
    ++ (as_str role
        ++ (lit " allowlist is incomplete: "
            ++ (join_texts (lit ", ") (missing_fields env_prefix fields)
                ++ (lit " unset. Set all five " ++ (env_prefix ++ lit "ALLOWED_* or none.")))))

unfoldable pub optional_entry_from_env : Env → Role → Str → Result Str (Option PolicyEntry)
optional_entry_from_env env role env_prefix = do
  entry ← entry_from_env env role env_prefix
  let fields = register_fields entry
  if count_set fields == 0
      then ok none
      else if ltb (count_set fields) (length fields)
      then err (incomplete role env_prefix fields)
      else ok (some entry)

-- `entries.push`, when there is one
push_entry : List PolicyEntry → Option PolicyEntry → List PolicyEntry
push_entry entries none = entries
push_entry entries (some entry) = entries ++ entry ∷ []

unfoldable pub load_policy_from_env : Env → Result Str AttestationPolicy
unfolding push_entry unwrap_or
load_policy_from_env env = do
  first ← entry_from_env env node []
  second ← optional_entry_from_env env agent (lit "AGENT_")
  ok record {
    enforce_measurement_policy = true;
    allowed_tcb_statuses =
        unwrap_or (parse_csv_env env (lit "ALLOWED_TCB_STATUSES") true) (lit "uptodate" ∷ []);
    entries = push_entry (first ∷ []) second;
  }
