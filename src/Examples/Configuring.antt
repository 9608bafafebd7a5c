-- ===== src/Examples/Configuring.antt =====
-- A configuration that is read, and a measurement.
use mero_tee.Prelude.{
  ◌↔◌, ℕ, ◌<◌, ◌≤◌, ◌≡◌, refl, ◌≢◌, ◌⊎◌, inl, inr, true, Option, none, List, [], ◌∷◌, ◌++◌,
  replicate, list_eq, any, if◌then◌else◌, all, arith,
}
use mero_tee.Text.{
  AmongTexts, Str, lit, show_nat, trim, trim_matches, to_ascii_lowercase, split, is_ascii_hexdigit,
  len, trim_0x,
}
use mero_tee.Errors.{Result, ok, err}
use mero_tee.Policy.{
  as_str, join_texts, PolicyEntry, node, agent, validate_policy_requirements, check_entries,
  check_entry, check_fields, find_overlap, no_overlap, register_fields,
}
use mero_tee.Measurement.{HexMeasurement, parse, matches_raw, normalized}
use mero_tee.Measurement.Form.{parse-value}
use mero_tee.PeerId.{is_base58}
use mero_tee.GetKey.{key_path_for_peer}
use mero_tee.Env.{
  Env, not_present, IoError, var_ok, read_env_utf8, parse_bool_env, parse_bool_flag, parse_csv,
  parse_csv_env, parse_measurement_list_env, parse_measurements,
}
use mero_tee.Config.{
  Config, SocketAddr, number_or, key_prefix_from_env, is_slash, cluster_from_env, strict_number,
  replicas_from_env, count_set, entry_from_env, is_set, listen_addr_from_env, load_policy_from_env,
  optional_entry_from_env, unwrap_or,
}
use mero_tee.Config.Entries.{AmongFields, IsUnset, optional_entry-partial}
use mero_tee.Config.Replicas.{replicas_from_env-decides}
use mero_tee.Config.Profile.{
  IsKnown, parse_profile, read_image_profile_from_file, profile_override_from_env,
  resolve_kms_profile,
}
use mero_tee.Config.Load.{from_env_with_image_profile_path, policy_from_env}
use mero_tee.Config.Checks.{from_env_sound, from_env-pinned}
use mero_tee.Examples.{toy_config}
use mero_tee.Config.Apart.{key_paths_apart}

-- A bootstrapping replica with a node's allowlist of one value, and an image of the debug profile.
abbrev registers : List Str
registers = lit "MRTD" ∷ lit "RTMR0" ∷ lit "RTMR1" ∷ lit "RTMR2" ∷ lit "RTMR3" ∷ []

abbrev env : Env
env name =
    if list_eq name (lit "MERO_KMS_BOOTSTRAP")
    then ok (lit " Yes ")
    else if list_eq name (lit "MERO_KMS_REPLICAS")
    then err not_present
    else if any (λ register. list_eq name (lit "ALLOWED_" ++ register)) registers
    then ok (lit "0x" ++ replicate 96 b'A')
    else if list_eq name (lit "KEY_NAMESPACE_PREFIX")
    then ok (lit "/nodes//")
    else err not_present

abbrev parse_addr : Str → Option SocketAddr
parse_addr s = none

abbrev file : Result IoError Str
file = ok (lit "Debug ")

abbrev path : Str
path = lit "/p"

abbrev read : Result Str Config
read = from_env_with_image_profile_path parse_addr env path file

abbrev config : Config
config = elim read [ ok c ↦ c | err e ↦ toy_config ]

read_ok : read ≡ ok config
unfolding from_env_with_image_profile_path number_or var_ok lit read_image_profile_from_file trim
    parse_profile to_ascii_lowercase profile_override_from_env read_env_utf8 resolve_kms_profile
    key_prefix_from_env is_slash parse_bool_env cluster_from_env parse_bool_flag strict_number
    replicas_from_env policy_from_env count_set entry_from_env is_set listen_addr_from_env
    load_policy_from_env optional_entry_from_env unwrap_or parse_csv parse_csv_env
    parse_measurement_list_env parse_measurements normalized parse check_entries check_entry
    check_fields find_overlap no_overlap register_fields validate_policy_requirements
    is_ascii_hexdigit len split trim_0x trim_matches
read_ok = refl

from_env_sound_example :
    (1 ≤ config.max_consumed_challenges)
    × IsKnown config.kms_profile
    × (config.agent_key_namespace_prefix ≢ config.key_namespace_prefix)
    × ((config.kms_bootstrap ≡ true) ⊎ (config.cluster_peers ≢ []))
    × (1 ≤ config.join_retry_secs)
    × (1 ≤ config.replicas)
    × (config.replicas ≤ 15)
    × ((config.replicas ≡ 1) ⊎ (config.cluster_peers ≢ []))
    × (validate_policy_requirements config.attestation_policy ≡ ok tt)
from_env_sound_example = from_env_sound parse_addr env path file config read_ok

from_env-pinned_example : parse_profile (trim (lit "Debug ")) ≡ ok config.kms_profile
from_env-pinned_example = from_env-pinned parse_addr env path (lit "Debug ") config read_ok

abbrev peer : Str
peer = lit "12D3KooW"

peer_base58 : all is_base58 peer ≡ true
unfolding is_base58 lit
peer_base58 = refl

key_paths_apart_example : key_path_for_peer config node peer ≢ key_path_for_peer config agent peer
key_paths_apart_example =
    key_paths_apart parse_addr env path file config read_ok peer peer peer_base58 peer_base58

abbrev raw : Str
raw = lit " 0x" ++ replicate 96 b'A'

abbrev measurement : HexMeasurement
measurement = record { value = replicate 96 b'a' }

parsed : parse raw ≡ ok measurement
unfolding parse lit len normalized to_ascii_lowercase trim_0x trim is_ascii_hexdigit
parsed = refl

parse-value_example :
    (parse measurement.value ≡ ok measurement)
    × (matches_raw measurement raw ≡ true)
    × (matches_raw measurement measurement.value ≡ true)
parse-value_example = parse-value raw measurement parsed

-- An image that sets one list of the agents' five.
abbrev partial_env : Env
partial_env name =
    if list_eq name (lit "AGENT_" ++ (lit "ALLOWED_" ++ lit "RTMR0"))
    then ok (replicate 96 b'a')
    else err not_present

abbrev partial_entry : PolicyEntry
partial_entry = record {
  role = agent;
  allowed_mrtd = [];
  allowed_rtmr0 = measurement ∷ [];
  allowed_rtmr1 = [];
  allowed_rtmr2 = [];
  allowed_rtmr3 = [];
}

partial_read : entry_from_env partial_env agent (lit "AGENT_") ≡ ok partial_entry
unfolding entry_from_env parse_measurement_list_env lit parse_measurements parse_csv split trim
    parse len normalized to_ascii_lowercase trim_0x is_ascii_hexdigit
partial_read = refl

set_field : AmongFields (lit "RTMR0", measurement ∷ []) (register_fields partial_entry)
unfolding register_fields
set_field = inr (inl refl)

unset_field : AmongFields (lit "MRTD", []) (register_fields partial_entry)
unfolding register_fields
unset_field = inl refl

measurement_set : (measurement ∷ []) ≢ []
measurement_set h = cc

optional_entry-partial_example :
    (names : List Str) × (optional_entry_from_env partial_env agent (lit "AGENT_")
      ≡ err (
          lit "The "
          ++ (as_str agent
              ++ (lit " allowlist is incomplete: "
                  ++ (join_texts (lit ", ") names
                      ++ (lit " unset. Set all five "
                          ++ (lit "AGENT_" ++ lit "ALLOWED_* or none.")))))))
    × ((name : Str)
        → AmongTexts name names ↔ IsUnset (lit "AGENT_") (register_fields partial_entry) name)
optional_entry-partial_example =
    optional_entry-partial partial_env agent (lit "AGENT_") partial_entry
      (lit "RTMR0", measurement ∷ []) (lit "MRTD", []) partial_read set_field unset_field
      measurement_set refl

-- A cluster of seven.
abbrev seven_env : Env
seven_env name = if list_eq name (lit "MERO_KMS_REPLICAS") then ok (show_nat 7) else err not_present

replicas_from_env-decides_example :
    ((replicas_from_env seven_env (peer ∷ []) ≡ ok 7)
      × (1 ≤ 7)
      × (7 ≤ 15)
      × ((◌≡◌ {A = ℕ} 7 1) ⊎ ((peer ∷ []) ≢ [])))
    ⊎ (((e : Str) × (replicas_from_env seven_env (peer ∷ []) ≡ err e))
        × ((◌≡◌ {A = ℕ} 7 0) ⊎ ((15 < 7) ⊎ ((1 < 7) × ((peer ∷ []) ≡ [])))))
unfolding lit
replicas_from_env-decides_example =
    replicas_from_env-decides seven_env (peer ∷ []) 7 refl (omega arith)
