-- ===== src/Router/Started.antt =====
-- mero-kms/src/main.rs: what a replica holds when it starts to serve.
use mero_tee.Prelude.{ℕ, ◌≡◌, ◌⊎◌, inl, inr, true, false, none, some, [], max, arith, Bool-cases}
use mero_tee.Text.{Str, Bytes}
use mero_tee.Errors.{Result, ServiceError, ok, Result-cases}
use mero_tee.Crypto.{Crypto}
use mero_tee.Backend.{TdxBackend, AttestationResult, set_root}
use mero_tee.Backend
use mero_tee.Config.{Config}
use mero_tee.Counters.Replica.{Counters, bootstrap, learn_formed}
use mero_tee.Counters.Replica
use mero_tee.Router.Startup.{start_replica}

new-root :
    (c : Crypto) (attest : Bytes → Result Str AttestationResult) (b : TdxBackend)
    → Backend.new c attest ≡ ok b
    → b.root ≡ none
unfolding Backend.new
new-root c attest b h = ground arith

-- A replica that starts holds a root and may answer for its counters exactly if it bootstraps its
-- cluster; a joining one holds neither, and both hold no counter yet.
pub start_replica-holds :
    (c : Crypto) (show_error : ServiceError → Str) (attest : Bytes → Result Str AttestationResult)
    (config : Config) (root replica_id : Bytes) (now : ℕ) (b : TdxBackend) (k : Counters)
    → start_replica c show_error attest config root replica_id now ≡ ok (b, k)
    → (k.inner.map ≡ [])
      × (k.replicas ≡ max config.replicas 1)
      × (((config.kms_bootstrap ≡ true)
            × (b.root ≡ some (record { bytes = root }))
            × (k.inner.ready ≡ true))
          ⊎ ((config.kms_bootstrap ≡ false) × (b.root ≡ none) × (k.inner.ready ≡ false)))
unfolding start_replica set_root Replica.new bootstrap learn_formed
start_replica-holds c show_error attest config root replica_id now b k h =
    elim (Result-cases (Backend.new c attest)) [
      | inr (e, failed) ↦ absurd (ground arith)
      | inl (fresh, made) ↦
          let unset = new-root c attest fresh made in
          elim (Bool-cases config.kms_bootstrap) [
            | inl boots ↦ (ground arith, ground arith, inl (boots, ground arith, ground arith))
            | inr joins ↦ (ground arith, ground arith, inr (joins, ground arith, ground arith))
          ]
    ]
