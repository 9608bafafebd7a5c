-- ===== src/Config/Replicas.antt =====
-- mero-kms/src/config/mod.rs, `replicas_from_env`: which numbers of replicas are accepted.
use mero_tee.Prelude.{ℕ, ◌≤◌, ◌<◌, ◌≡◌, refl, ◌∙◌, ap, ◌≢◌, ◌⊎◌, inl, inr, List, [], arith}
use mero_tee.Text.{Str, lit, show_nat, u64_max, trim}
use mero_tee.Errors.{ok, err, Result-cases}
use mero_tee.Env.{Env, var_ok, parse_u64}
use mero_tee.Env.Numbers.{parse_u64-show_nat, trim-show_nat}
use mero_tee.Config.{strict_number, replicas_from_env}

strict_number-show_nat :
    (env : Env) (name : Str) (default n : ℕ)
    → env name ≡ ok (show_nat n)
    → n ≤ u64_max
    → strict_number env name default ≡ ok n
unfolding strict_number var_ok
strict_number-show_nat env name default n set bound =
    let read : parse_u64 (trim (show_nat n)) ≡ ok n =
      ap parse_u64 (trim-show_nat n) ∙ parse_u64-show_nat n bound in
    rw (strict_number, var_ok, set, read) refl

-- The setting names a number that is written in decimal. It is accepted, as that number, if it is
-- one, or if it is up to 15 and the other replicas are named; else the service does not start.
pub replicas_from_env-decides :
    (env : Env) (peers : List Str) (n : ℕ)
    → env (lit "MERO_KMS_REPLICAS") ≡ ok (show_nat n)
    → n ≤ u64_max
    → ((replicas_from_env env peers ≡ ok n) × (1 ≤ n) × (n ≤ 15) × ((n ≡ 1) ⊎ (peers ≢ [])))
      ⊎ (((e : Str) × (replicas_from_env env peers ≡ err e))
          × ((n ≡ 0) ⊎ ((15 < n) ⊎ ((1 < n) × (peers ≡ [])))))
unfolding replicas_from_env
replicas_from_env-decides env peers n set bound =
    let read = strict_number-show_nat env (lit "MERO_KMS_REPLICAS") 1 n set bound in
    elim (Result-cases (replicas_from_env env peers)) [
      | inl (m, accepted) ↦ inl (ground arith, ground arith, ground arith, ground arith)
      | inr (e, failed) ↦ inr ((e, failed), ground arith)
    ]
