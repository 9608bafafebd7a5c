-- ===== src/State.antt =====
-- mero-kms/src/handlers/mod.rs and mero-kms/src/config/mod.rs: the state that the handlers share,
-- as far as they read it, and what one request meets outside the process.
use mero_tee.Prelude.{ℕ}
use mero_tee.Text.{Str}
use mero_tee.Errors.{Result, Service, map_err, invalid_challenge}
use mero_tee.Exec.{Exec}
use mero_tee.Backend.{TdxBackend}
use mero_tee.Config.{Config}
use mero_tee.Cluster.{JoinNonces}
use mero_tee.Challenge.{SpentChallenges}
use mero_tee.Counters.Replica.{Counters}

pub record AppState : Type 0 where
  pub config : Config
  pub backend : TdxBackend
  pub join_nonces : JoinNonces
  pub spent_challenges : SpentChallenges
  pub counters : Counters

-- A reading of the clock (`unix_now_secs`): seconds, or why there are none.
abbrev pub Clock : Type 0
Clock = Result Str ℕ

abbrev pub now : Clock → Service ℕ
now clock = map_err invalid_challenge clock

-- A call on the counters, and on the spent challenges, from a handler.
abbrev pub with_counters : {A : Type 0} → Exec Counters A → Exec AppState A
with_counters m s =
    let (counters, result) = m s.counters in (record s { counters = counters }, result)

abbrev pub with_spent :
    {A : Type 0} → (SpentChallenges → SpentChallenges × Service A) → Exec AppState A
with_spent m s =
    let (spent, result) = m s.spent_challenges in (record s { spent_challenges = spent }, result)

abbrev pub with_join_nonces : {A : Type 0} → (JoinNonces → JoinNonces × Service A) → Exec AppState A
with_join_nonces m s =
    let (nonces, result) = m s.join_nonces in (record s { join_nonces = nonces }, result)
