-- ===== src/Config/Apart.antt =====
-- mero-kms/src/config/mod.rs and mero-kms/src/handlers/get_key.rs: under a configuration that the
-- service started with, no agent is given the key of a node.
use mero_tee.Prelude.{
  Option, ◌≡◌, refl, sym, ◌∙◌, ◌≢◌, inl, inr, true, all, Bool-cases, is_empty, Option-cases,
}
use mero_tee.Text.{Str, lit, trim_matches}
use mero_tee.Text.Trim.{trim_matches_idem}
use mero_tee.Errors.{Result, ok}
use mero_tee.Policy.{node, agent}
use mero_tee.PeerId.{is_base58}
use mero_tee.Env.{Env, IoError, var_ok}
use mero_tee.Config.{
  Config, SocketAddr, key_prefix_from_env, is_slash, default_key_prefix, default_agent_key_prefix,
}
use mero_tee.Config.Load.{from_env_with_image_profile_path}
use mero_tee.Config.Checks.{read_prefixes, prefixes_differ}
use mero_tee.GetKey.{key_path_for_peer}
use mero_tee.GetKey.Paths.{namespace_of, key_path_for_peer-injective}

-- A prefix that was read has no slashes around it.
key_prefix_from_env-trimmed :
    (env : Env) (name default : Str)
    → trim_matches is_slash default ≡ default
    → trim_matches is_slash (key_prefix_from_env env name default)
      ≡ key_prefix_from_env env name default
unfolding key_prefix_from_env
key_prefix_from_env-trimmed env name default h = elim (Option-cases (var_ok env name)) [
  | inl unset ↦ rw (key_prefix_from_env, unset) h
  | inr (value, set) ↦ elim (Bool-cases (is_empty (trim_matches is_slash value))) [
    | inl blank ↦ rw (key_prefix_from_env, set, blank) h
    | inr kept ↦ rw (key_prefix_from_env, set, kept) (trim_matches_idem is_slash value)
  ]
]

default_key_prefix-trimmed : trim_matches is_slash default_key_prefix ≡ default_key_prefix
unfolding trim_matches is_slash lit
default_key_prefix-trimmed = refl

default_agent_key_prefix-trimmed :
    trim_matches is_slash default_agent_key_prefix ≡ default_agent_key_prefix
unfolding trim_matches is_slash lit
default_agent_key_prefix-trimmed = refl

module _ (parse_addr : Str → Option SocketAddr) (env : Env) (path : Str) (file : Result IoError Str)
    (config : Config)
    (h : from_env_with_image_profile_path parse_addr env path file ≡ ok config) where
  node_namespace : namespace_of config node ≡ config.key_namespace_prefix
  unfolding namespace_of is_slash
  node_namespace = rw (read_prefixes parse_addr env path file config h).0 (
      key_prefix_from_env-trimmed env (lit "KEY_NAMESPACE_PREFIX") default_key_prefix
        default_key_prefix-trimmed)

  agent_namespace : namespace_of config agent ≡ config.agent_key_namespace_prefix
  unfolding namespace_of is_slash
  agent_namespace = rw (read_prefixes parse_addr env path file config h).1 (
      key_prefix_from_env-trimmed env (lit "AGENT_KEY_NAMESPACE_PREFIX") default_agent_key_prefix
        default_agent_key_prefix-trimmed)

  -- Under a configuration that the service started with, the key paths of a node and of an agent
  -- are never the same, whatever base58 peer ids the two present.
  pub key_paths_apart :
      (p q : Str)
      → all is_base58 p ≡ true
      → all is_base58 q ≡ true
      → key_path_for_peer config node p ≢ key_path_for_peer config agent q
  key_paths_apart p q hp hq same =
      let (_, spaces) = key_path_for_peer-injective config node agent p q hp hq same in
      prefixes_differ parse_addr env path file config h
        (sym agent_namespace ∙ sym spaces ∙ node_namespace)
