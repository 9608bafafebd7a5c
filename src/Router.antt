-- ===== src/Router.antt =====
-- mero-kms/src/handlers/mod.rs: the state that a replica starts to serve with, the handlers of the
-- calls between replicas, and the health report.
pub mod Startup
pub mod Joined
pub mod Synced
pub mod Started
pub mod Later
pub mod Runs
use mero_tee.Prelude.{ℕ, Bool, Option, List, []}
use mero_tee.Text.{Str, Bytes, lit}
use mero_tee.Exec.{Exec, gets, ◌>>=◌}
use mero_tee.Crypto.{Crypto}
use mero_tee.Backend.{TdxBackend, has_root, reported_join_error}
use mero_tee.Config.{Config}
use mero_tee.Counters.Replica.{Counters, CounterJson, Signed, answer_read, answer_merge}
use mero_tee.State.{AppState, with_counters}

-- `create_router_with`, the state it makes; the key of the join nonces is random.
unfoldable pub create_router_with : Config → TdxBackend → Counters → Bytes → AppState
create_router_with config backend counters nonce_key = record {
  config = config;
  backend = backend;
  join_nonces = record { key = nonce_key; spent = [] };
  spent_challenges = [];
  counters = counters;
}

unfoldable pub counters_read_handler : Crypto → CounterJson → ℕ → Signed → Exec AppState Signed
counters_read_handler c j now signed = do
  backend ← gets (λ s. s.backend)
  with_counters (answer_read c j backend now signed)

unfoldable pub counters_merge_handler : Crypto → CounterJson → ℕ → Signed → Exec AppState Signed
counters_merge_handler c j now signed = do
  backend ← gets (λ s. s.backend)
  with_counters (answer_merge c j backend now signed)

pub record Health : Type 0 where
  pub status : Str
  pub service : Str
  pub cluster_root_ready : Bool
  pub counters_ready : Bool
  pub last_join_error : Option Str
  pub last_join_refusal : Option Str

unfoldable pub health_handler : AppState → Health
health_handler s = record {
  status = lit "alive";
  service = lit "mero-kms";
  cluster_root_ready = has_root s.backend;
  counters_ready = s.counters.inner.ready;
  last_join_error = reported_join_error s.backend;
  last_join_refusal = s.backend.last_join_refusal;
}
