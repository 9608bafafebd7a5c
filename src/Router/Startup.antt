-- ===== src/Router/Startup.antt =====
-- mero-kms/src/main.rs, and the loops that a joining replica runs in the background:
-- mero-kms/src/cluster.rs, `join_until_ready`, and mero-kms/src/counters.rs, `sync_until_ready`.
-- A loop runs over the list of the rounds that it has met so far, and tells whether it has ended.
use mero_tee.Prelude.{
  ℕ, Bool, true, false, Option, none, some, List, [], ◌∷◌, ◌++◌, is_empty, if◌then◌else◌,
}
use mero_tee.Text.{Str, Bytes, lit}
use mero_tee.Errors.{Result, Service, ServiceError, ok, err, map_err, ◌>>=◌}
use mero_tee.Crypto.{Crypto}
use mero_tee.Backend.{TdxBackend, Root, AttestationResult, StartupError, refused, set_root}
use mero_tee.Backend
use mero_tee.Policy.{AttestationPolicy}
use mero_tee.Cluster.{Messages}
use mero_tee.Cluster.Join.{Joining, join_round}
use mero_tee.Config.{Config}
use mero_tee.Counters.Replica.{Counters, CounterJson, Net, bootstrap}
use mero_tee.Counters.Replica
use mero_tee.Counters.Ops.{sync_once}

-- A round of join attempts: what the joiner meets at each peer.
abbrev pub JoinAttempts : Type 0
JoinAttempts = List (Str × Joining)

module _ (c : Crypto) (messages : Messages) (show_error : ServiceError → Str) where
  unfoldable pub join_until_ready :
      AttestationPolicy → TdxBackend → List JoinAttempts → TdxBackend × Bool
  join_until_ready policy tdx [] = (tdx, false)
  join_until_ready policy tdx (attempts ∷ rounds) =
      let tried = join_round c messages show_error policy tdx attempts in
      elim tried.1 [ true ↦ (tried.0, true) | false ↦ join_until_ready policy tried.0 rounds ]

-- What one sync meets: the round, its nonce, and the instant after it.
pub record Sync : Type 0 where
  pub net : Net
  pub nonce : Bytes
  pub now : ℕ

-- Only `Ok(true)` ends the loop.
unfoldable pub ends : Service Bool → Bool
ends (ok done) = done
ends (err e) = false

module _ (c : Crypto) (j : CounterJson) (backend : TdxBackend) where
  unfoldable pub sync_until_ready : Counters → List Sync → Counters × Bool
  sync_until_ready counters [] = (counters, false)
  sync_until_ready counters (sync ∷ rounds) =
      let tried = sync_once c j backend sync.net sync.nonce sync.now counters in
      elim (ends tried.1) [ true ↦ (tried.0, true) | false ↦ sync_until_ready tried.0 rounds ]

-- `main`, up to the sockets: the backend and the counters, which a bootstrapping replica fills and
-- a joining one leaves to the loops. The root and the replica's id are random.
unfoldable pub start_replica :
    Crypto
    → (ServiceError → Str)
    → (Bytes → Result Str AttestationResult)
    → Config
    → (root replica_id : Bytes) → (now : ℕ) → Result StartupError (TdxBackend × Counters)
start_replica c show_error attest config root replica_id now = do
  backend ← Backend.new c attest
  let counters = Replica.new replica_id config.replicas config.cluster_peers
  let (rooted, done) = set_root backend (record { bytes = root })
  if config.kms_bootstrap
      then map_err (λ e. refused (show_error e)) done >>= (λ _. ok (rooted, bootstrap counters now))
      else ok (backend, counters)

-- The origins as header values; no layer without origins. The parser of a value is an argument.
unfoldable pub parse_origins : (Str → Result Str Bytes) → List Str → Result Str (List Bytes)
parse_origins from_str [] = ok []
parse_origins from_str (origin ∷ origins) = do
  value ←
      map_err (λ e. lit "Invalid CORS origin '" ++ (origin ++ (lit "': " ++ e))) (from_str origin)
  values ← parse_origins from_str origins
  ok (value ∷ values)

unfoldable pub build_cors_layer :
    (Str → Result Str Bytes) → List Str → Result Str (Option (List Bytes))
build_cors_layer from_str origins =
    if is_empty origins
    then ok none
    else (do values ← parse_origins from_str origins; ok (some values))
