-- ===== src/Router/Runs.antt =====
-- mero-kms/src/handlers/mod.rs: a replica's requests and background rounds as steps of one state,
-- and what holds of every state that a run reaches.
use mero_tee.Prelude.{ℕ, ◌≡◌, refl, ◌⊎◌, inl, inr, none, arith}
use mero_tee.Text.{Str}
use mero_tee.Errors.{ServiceError, ok}
use mero_tee.Crypto.{Crypto}
use mero_tee.Backend.{TdxBackend, with_root, derive, derive_key_hex}
use mero_tee.Cluster.{Messages}
use mero_tee.Cluster.Join.{Giving, JoinRequest, join_round, join_handler}
use mero_tee.Counters.Replica.{CounterJson, Signed}
use mero_tee.Counters.Ops.{sync_once}
use mero_tee.Counters.Steps.{IsQuiet, Extends-refl, sync_once-Keeps}
use mero_tee.State.{AppState, with_counters}
use mero_tee.GetKey.{Libraries, Request, get_key_handler}
use mero_tee.Rollback.{RollbackRequest, Rounds, Kind, handle}
use mero_tee.Router.{counters_read_handler, counters_merge_handler}
use mero_tee.Router.Startup.{Sync, JoinAttempts}
use mero_tee.Router.Joined.{join_round-Rooted}
use mero_tee.Router.Later.{
  Later, Later-refl, Later-trans, Ages-with_counters, counters_read_handler-Ages,
  counters_merge_handler-Ages, get_key_handler-Ages, handle-Ages, join_handler-Ages,
}

module _ (c : Crypto) (j : CounterJson) (libs : Libraries) (messages : Messages)
    (show_error : ServiceError → Str) where
  -- One request that changes the state, or one round of a background loop.
  pub data Step : AppState → AppState → Type 0 where
    get_key_step :
        (s : AppState) (r : Request) → IsQuiet r.net → Step s (get_key_handler c libs j r s).0
    join_step :
        (s : AppState) (g : Giving) (request : JoinRequest)
        → Step s (join_handler c messages show_error g request s).0
    counters_read_step :
        (s : AppState) (now : ℕ) (signed : Signed)
        → Step s (counters_read_handler c j now signed s).0
    counters_merge_step :
        (s : AppState) (now : ℕ) (signed : Signed)
        → Step s (counters_merge_handler c j now signed s).0
    rollback_step :
        (s : AppState) (r : Rounds) (request : RollbackRequest) (kind : Kind)
        → IsQuiet r.first_net
        → IsQuiet r.read_net
        → IsQuiet r.net
        → Step s (handle c j r request kind s).0
    joining_step :
        (s : AppState) (attempts : JoinAttempts)
        → Step s (record s {
          backend =
              (join_round c messages show_error s.config.attestation_policy s.backend attempts).0;
        })
    syncing_step :
        (s : AppState) (sync : Sync)
        → IsQuiet sync.net
        → Step s (with_counters (sync_once c j s.backend sync.net sync.nonce sync.now) s).0

  -- Steps one after the other.
  pub data Run : AppState → AppState → Type 0 where
    stopped : (s : AppState) → Run s s
    stepped : (a b d : AppState) → Step a b → Run b d → Run a d

  Step-Later : {s s' : AppState} → Step s s' → Later s s'
  Step-Later (get_key_step s r quiet) = (get_key_handler-Ages c j libs r quiet).at s
  Step-Later (join_step s g request) = (join_handler-Ages c messages show_error g request).at s
  Step-Later (counters_read_step s now signed) = (counters_read_handler-Ages c j now signed).at s
  Step-Later (counters_merge_step s now signed) = (counters_merge_handler-Ages c j now signed).at s
  Step-Later (rollback_step s r request kind q1 q2 q3) =
      (handle-Ages c j r request kind q1 q2 q3).at s
  Step-Later (joining_step s attempts) =
      let kept =
        join_round-Rooted c messages show_error s.config.attestation_policy s.backend attempts in
      record {
        same_config = refl;
        same_own = kept.own;
        same_root = kept.root;
        counters = Extends-refl s.counters;
        memory = λ m. m;
      }
  Step-Later (syncing_step s sync quiet) =
      (Ages-with_counters _ (sync_once-Keeps c j s.backend sync.net sync.nonce sync.now quiet)).at s

  -- Whatever requests a replica answers and whatever rounds it makes, in whatever order: its
  -- configuration and measurements stay, a root that it holds is never replaced, no counter and no
  -- epoch that it held is lost, and its memory of challenges stays in its bounds.
  pub Run-Later : {s s' : AppState} → Run s s' → Later s s'
  Run-Later (stopped s) = Later-refl s
  Run-Later (stepped a b d step run) = Later-trans a b d (Step-Later step) (Run-Later run)

  derive-of_root :
      (b b' : TdxBackend) (path : Str) (key : Str)
      → (b.root ≡ none) ⊎ (b'.root ≡ b.root)
      → derive_key_hex c b path ≡ ok key
      → derive_key_hex c b' path ≡ ok key
  unfolding derive_key_hex derive with_root
  derive-of_root b b' path key (inl unset) h = absurd (ground arith)
  derive-of_root b b' path key (inr same) h = rw same h

  -- A key that a replica derives for a path, it derives for that path ever after.
  pub derive_key_hex_stable :
      {s s' : AppState} (path key : Str)
      → Run s s'
      → derive_key_hex c s.backend path ≡ ok key
      → derive_key_hex c s'.backend path ≡ ok key
  derive_key_hex_stable path key run h = derive-of_root _ _ path key (Run-Later run).same_root h
