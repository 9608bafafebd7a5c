-- ===== src/Config/Load.antt =====
-- mero-kms/src/config/mod.rs, `Config::from_env`: the whole configuration, or why the service does
-- not start.
use mero_tee.Prelude.{true, false, not, Option, [], ◌++◌, ◌==◌, list_eq}
use mero_tee.Text.{Str, lit}
use mero_tee.Errors.{Result, ok, ensure, ◌>>=◌, ◌>>◌}
use mero_tee.Policy.{AttestationPolicy, validate_policy_requirements}
use mero_tee.Env.{Env, IoError, parse_bool_env, parse_csv_env}
use mero_tee.Config.{
  Config, SocketAddr, image_profile_path, default_key_prefix, default_agent_key_prefix, unwrap_or,
  number_or, listen_addr_from_env, replicas_from_env, cluster_from_env, key_prefix_from_env,
  load_policy_from_env,
}
use mero_tee.Config.Profile.{
  profile_override_from_env, read_image_profile_from_file, resolve_kms_profile,
}

abbrev pub same_prefixes : Str → Str
same_prefixes prefix =
    lit "AGENT_KEY_NAMESPACE_PREFIX must differ from KEY_NAMESPACE_PREFIX ('"
    ++ (prefix ++ lit "'), or an agent could be released a node's key")

module _ (parse_addr : Str → Option SocketAddr) (env : Env) where
  abbrev pub node_prefix : Str
  node_prefix = key_prefix_from_env env (lit "KEY_NAMESPACE_PREFIX") default_key_prefix

  abbrev pub agent_prefix : Str
  agent_prefix = key_prefix_from_env env (lit "AGENT_KEY_NAMESPACE_PREFIX") default_agent_key_prefix

  -- The allowlists, and whether they are enforced.
  unfoldable pub policy_from_env : Result Str AttestationPolicy
  policy_from_env = do
    loaded ← load_policy_from_env env
    enforce ← parse_bool_env env (lit "ENFORCE_MEASUREMENT_POLICY") true
    let policy = record loaded { enforce_measurement_policy = enforce }
    validate_policy_requirements policy
    ok policy

  unfoldable pub from_env_with_image_profile_path : Str → Result IoError Str → Result Str Config
  from_env_with_image_profile_path path file = do
    let max_consumed = number_or env (lit "MAX_CONSUMED_CHALLENGES") 10000
    ensure (not (max_consumed == 0)) (lit "MAX_CONSUMED_CHALLENGES must be greater than 0")
    pinned ← read_image_profile_from_file path file
    override ← profile_override_from_env env
    profile ← resolve_kms_profile pinned override
    ensure (not (list_eq agent_prefix node_prefix)) (same_prefixes node_prefix)
    sealed ← parse_bool_env env (lit "MERO_KMS_REQUIRE_SEALED_KEY_RELEASE") true
    (bootstrap, peers, retry_secs) ← cluster_from_env env
    replicas ← replicas_from_env env peers
    policy ← policy_from_env
    ok record {
      listen_addr = listen_addr_from_env parse_addr env;
      challenge_ttl_secs = number_or env (lit "CHALLENGE_TTL_SECS") 60;
      max_consumed_challenges = max_consumed;
      kms_profile = profile;
      key_namespace_prefix = node_prefix;
      agent_key_namespace_prefix = agent_prefix;
      cors_allowed_origins = unwrap_or (parse_csv_env env (lit "CORS_ALLOWED_ORIGINS") false) [];
      attestation_policy = policy;
      require_sealed_key_release = sealed;
      kms_bootstrap = bootstrap;
      cluster_peers = peers;
      join_retry_secs = retry_secs;
      replicas = replicas;
    }

  -- `Config::from_env`, with the profile file as it is in the image.
  unfoldable pub from_env : Result IoError Str → Result Str Config
  from_env file = from_env_with_image_profile_path image_profile_path file
