-- ===== src/Config/Checks.antt =====
-- mero-kms/src/config/mod.rs: what a configuration that was read satisfies.
use mero_tee.Prelude.{
  ℕ, ◌≤◌, ◌≡◌, ◌⊎◌, inl, inr, ◌≢◌, Bool, true, false, Option, List, [], arith, list_eq, list_eq_iff,
  subst, some,
}
use mero_tee.Text.{Str, trim}
use mero_tee.Errors.{Result, ok, Result-cases}
use mero_tee.Policy.{AttestationPolicy, validate_policy_requirements}
use mero_tee.Env.{Env, IoError}
use mero_tee.Config.{Config, SocketAddr, replicas_from_env, cluster_from_env}
use mero_tee.Config.Profile.{
  IsKnown, resolve_kms_profile, resolve_kms_profile-IsKnown, read_image_profile_from_file,
  profile_override_from_env, resolve_pinned, parse_profile, known_fixed, parse_profile-IsKnown,
}
use mero_tee.Config.Load.{
  from_env_with_image_profile_path, policy_from_env, node_prefix, agent_prefix,
}

replicas_from_env_sound :
    (env : Env) (peers : List Str) (n : ℕ)
    → replicas_from_env env peers ≡ ok n
    → (1 ≤ n) × (n ≤ 15) × ((n ≡ 1) ⊎ (peers ≢ []))
unfolding replicas_from_env
replicas_from_env_sound env peers n h = ground arith

cluster_from_env_sound :
    (env : Env) (bootstrap : Bool) (peers : List Str) (secs : ℕ)
    → cluster_from_env env ≡ ok (bootstrap, peers, secs)
    → (1 ≤ secs) × ((bootstrap ≡ true) ⊎ (peers ≢ []))
unfolding cluster_from_env
cluster_from_env_sound env bootstrap peers secs h = ground arith

module _ (parse_addr : Str → Option SocketAddr) (env : Env) where
  policy_from_env_sound :
      (policy : AttestationPolicy)
      → policy_from_env parse_addr env ≡ ok policy
      → validate_policy_requirements policy ≡ ok tt
  unfolding policy_from_env
  policy_from_env_sound policy h = ground arith

  module _ (path : Str) (file : Result IoError Str) (config : Config)
      (h : from_env_with_image_profile_path parse_addr env path file ≡ ok config) where
    pub read_profile :
        (pinned : Option Str) × (override : Option Str) × (read_image_profile_from_file path file
          ≡ ok pinned)
        × (profile_override_from_env env ≡ ok override)
        × (resolve_kms_profile pinned override ≡ ok config.kms_profile)
    unfolding from_env_with_image_profile_path
    read_profile = elim (Result-cases (read_image_profile_from_file path file)) [
      | inr (e, at_e) ↦ absurd (ground arith)
      | inl (p, at_p) ↦ elim (Result-cases (profile_override_from_env env)) [
        | inr (e, at_e) ↦ absurd (ground arith)
        | inl (o, at_o) ↦ (p, o, at_p, at_o, ground arith)
      ]
    ]

    read_cluster :
        cluster_from_env env
        ≡ ok (config.kms_bootstrap, config.cluster_peers, config.join_retry_secs)
    unfolding from_env_with_image_profile_path
    read_cluster = ground arith

    read_replicas : replicas_from_env env config.cluster_peers ≡ ok config.replicas
    unfolding from_env_with_image_profile_path
    read_replicas = ground arith

    read_policy : policy_from_env parse_addr env ≡ ok config.attestation_policy
    unfolding from_env_with_image_profile_path
    read_policy = ground arith

    pub read_prefixes :
        (config.key_namespace_prefix ≡ node_prefix parse_addr env)
        × (config.agent_key_namespace_prefix ≡ agent_prefix parse_addr env)
    unfolding from_env_with_image_profile_path
    read_prefixes = ground arith

    pub prefixes_differ : config.agent_key_namespace_prefix ≢ config.key_namespace_prefix
    unfolding from_env_with_image_profile_path
    prefixes_differ same =
        let no : list_eq (agent_prefix parse_addr env) (node_prefix parse_addr env) ≡ false =
          ground arith in
        ground (
          arith,
          read_prefixes,
          (list_eq_iff (agent_prefix parse_addr env) (node_prefix parse_addr env)).1,
        )

    max_consumed_positive : 1 ≤ config.max_consumed_challenges
    unfolding from_env_with_image_profile_path
    max_consumed_positive = ground arith

    -- A configuration that was read is one the service can run: it remembers at least one used
    -- challenge, its profile is one of the three known, its key prefixes differ, it has a way to a
    -- root (bootstrap or peers), waits at least a second between rounds, counts between 1 and 15
    -- replicas with peers when there are several, and its policy passes the startup validation.
    pub from_env_sound :
        (1 ≤ config.max_consumed_challenges)
        × IsKnown config.kms_profile
        × (config.agent_key_namespace_prefix ≢ config.key_namespace_prefix)
        × ((config.kms_bootstrap ≡ true) ⊎ (config.cluster_peers ≢ []))
        × (1 ≤ config.join_retry_secs)
        × (1 ≤ config.replicas)
        × (config.replicas ≤ 15)
        × ((config.replicas ≡ 1) ⊎ (config.cluster_peers ≢ []))
        × (validate_policy_requirements config.attestation_policy ≡ ok tt)
    from_env_sound =
        let (pinned, override, _, _, resolved) = read_profile in
        let (secs, root) = cluster_from_env_sound env _ _ _ read_cluster in
        let (low, high, others) = replicas_from_env_sound env _ _ read_replicas in
        (
          max_consumed_positive,
          resolve_kms_profile-IsKnown pinned override _ resolved,
          prefixes_differ,
          root,
          secs,
          low,
          high,
          others,
          policy_from_env_sound config.attestation_policy read_policy,
        )

  read_pinned :
      (path raw : Str) (pinned : Option Str)
      → read_image_profile_from_file path (ok raw) ≡ ok pinned
      → (p : Str) × (pinned ≡ some p) × (parse_profile (trim raw) ≡ ok p)
  unfolding read_image_profile_from_file
  read_pinned path raw pinned h = elim (Result-cases (parse_profile (trim raw))) [
    | inl (p, parsed) ↦ (p, ground arith, parsed)
    | inr (e, failed) ↦ absurd (ground arith)
  ]

  -- An image with a pinned profile runs under that profile, whatever the environment says: the
  -- file's text, trimmed, names it.
  pub from_env-pinned :
      (path raw : Str) (config : Config)
      → from_env_with_image_profile_path parse_addr env path (ok raw) ≡ ok config
      → parse_profile (trim raw) ≡ ok config.kms_profile
  from_env-pinned path raw config h =
      let (pinned, override, at_file, _, resolved) = read_profile path (ok raw) config h in
      let (p, some_p, parsed) = read_pinned path raw pinned at_file in
      let again =
        resolve_pinned p override config.kms_profile
          (subst (λ o. resolve_kms_profile o override ≡ ok config.kms_profile) some_p resolved) in
      cc (known_fixed p (parse_profile-IsKnown (trim raw) p parsed))
