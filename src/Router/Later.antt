-- ===== src/Router/Later.antt =====
-- mero-kms/src/handlers: what no request changes of a replica's state, and what only grows.
use mero_tee.Prelude.{ℕ, ◌≡◌, refl, sym, ◌∙◌, ◌⊎◌, inl, inr, Bool, Option, none, some}
use mero_tee.Text.{Str, Bytes, to_ascii_lowercase}
use mero_tee.Errors.{Service, ServiceError, ok, err}
use mero_tee.Exec.{Exec, pure, lift, gets, guard, ◌>>=◌, ◌>>◌, continue}
use mero_tee.Crypto.{Crypto}
use mero_tee.Backend.{TdxBackend, Root, record_join_refusal}
use mero_tee.Policy.{Role}
use mero_tee.Challenge.Spent.{IsMemory, spend-IsMemory}
use mero_tee.Cluster.{Messages, JoinNonces, verify_peer}
use mero_tee.Cluster.Join.{Giving, JoinRequest, require_peer, join_handler}
use mero_tee.Counters.Replica.{Counters, CounterJson, Signed}
use mero_tee.Counters.{Entry}
use mero_tee.Counters.Ops.{raise_entry}
use mero_tee.Counters.Steps.{
  Extends, Extends-refl, Extends-trans, Keeps, IsQuiet, read-Keeps, write-Keeps, reset-Keeps,
  answer_read-Keeps, answer_merge-Keeps,
}
use mero_tee.State.{AppState, Clock, with_counters, with_join_nonces}
use mero_tee.GetKey.{
  GetKeyRequest, Libraries, Request, read_counters, spend_challenge, release_key, get_key_handler,
}
use mero_tee.Rollback.{
  RollbackRequest, Rounds, Kind, raise_call, reset_call, move_counter, answer, handle,
}
use mero_tee.Router.{counters_read_handler, counters_merge_handler}

-- The same replica later: its configuration, its measurements, and the root it held, if any, are
-- the same, its counters have lost nothing, and its memory of challenges is in its bounds.
pub record Later (s s' : AppState) : Type 0 where
  pub same_config : s'.config ≡ s.config
  pub same_own : s'.backend.own ≡ s.backend.own
  pub same_root : (s.backend.root ≡ none) ⊎ (s'.backend.root ≡ s.backend.root)
  pub counters : Extends s.counters s'.counters
  pub memory :
      IsMemory s.config.max_consumed_challenges s.spent_challenges
      → IsMemory s'.config.max_consumed_challenges s'.spent_challenges

pub Later-refl : (s : AppState) → Later s s
Later-refl s = record {
  same_config = refl;
  same_own = refl;
  same_root = inr refl;
  counters = Extends-refl s.counters;
  memory = λ m. m;
}

same_root_trans :
    (a b c : Option Root) → (a ≡ none) ⊎ (b ≡ a) → (b ≡ none) ⊎ (c ≡ b) → (a ≡ none) ⊎ (c ≡ a)
same_root_trans a b c (inl h) k = inl h
same_root_trans a b c (inr h) (inl k) = inl (sym h ∙ k)
same_root_trans a b c (inr h) (inr k) = inr (k ∙ h)

pub Later-trans : (a b c : AppState) → Later a b → Later b c → Later a c
Later-trans a b c h k = record {
  same_config = k.same_config ∙ h.same_config;
  same_own = k.same_own ∙ h.same_own;
  same_root = same_root_trans a.backend.root b.backend.root c.backend.root h.same_root k.same_root;
  counters = Extends-trans a.counters b.counters c.counters h.counters k.counters;
  memory = λ m. k.memory (h.memory m);
}

-- An action after which the replica is only later, failing or not.
pub record Ages {A : Type 0} (m : Exec AppState A) : Type 0 where
  pub at : (s : AppState) → Later s (m s).0

module _ {A : Type 0} where
  Ages-pure : (a : A) → Ages (pure {S = AppState} a)
  Ages-pure a = record { at = Later-refl }

  Ages-lift : (r : Service A) → Ages (lift {S = AppState} r)
  Ages-lift r = record { at = Later-refl }

  Ages-gets : (f : AppState → A) → Ages (gets f)
  Ages-gets f = record { at = Later-refl }

  Ages-look : (f : AppState → Service A) → Ages (λ s. (s, f s))
  Ages-look f = record { at = Later-refl }

Ages-guard : (b : Bool) (e : ServiceError) → Ages (guard {S = AppState} b e)
Ages-guard b e = record { at = Later-refl }

module _ {A B : Type 0} (f : A → Exec AppState B) (kf : (a : A) → Ages (f a)) where
  continue-Later :
      (s : AppState) (r : AppState × Service A) → Later s r.0 → Later s (continue f r).0
  continue-Later s (t, ok a) h = Later-trans s t (f a t).0 h ((kf a).at t)
  continue-Later s (t, err e) h = h

Ages-bind :
    {A B : Type 0} (m : Exec AppState A) (f : A → Exec AppState B)
    → Ages m
    → ((a : A) → Ages (f a))
    → Ages (m >>= f)
Ages-bind m f km kf = record { at = λ s. continue-Later f kf s (m s) (km.at s) }

Ages-then :
    {A B : Type 0} (m : Exec AppState A) (n : Exec AppState B) → Ages m → Ages n → Ages (m >> n)
Ages-then m n km kn = record { at = λ s. continue-Later (λ _. n) (λ _. kn) s (m s) (km.at s) }

-- A call on the counters is as late as it makes the counters.
pub Ages-with_counters : {A : Type 0} (m : Exec Counters A) → Keeps m → Ages (with_counters m)
Ages-with_counters m k = record {
  at = λ s. record {
    same_config = refl;
    same_own = refl;
    same_root = inr refl;
    counters = k.at s.counters;
    memory = λ h. h;
  };
}

Ages-with_join_nonces :
    {A : Type 0} (m : JoinNonces → JoinNonces × Service A) → Ages (with_join_nonces m)
Ages-with_join_nonces m = record {
  at = λ s. record {
    same_config = refl;
    same_own = refl;
    same_root = inr refl;
    counters = Extends-refl s.counters;
    memory = λ h. h;
  };
}

module _ (c : Crypto) (libs : Libraries) where
  spend_challenge-Ages :
      (clock : Clock) (request : GetKeyRequest) (expires_at : ℕ)
      → Ages (spend_challenge c libs clock request expires_at)
  unfolding spend_challenge
  spend_challenge-Ages (err e) request expires_at = record { at = Later-refl }
  spend_challenge-Ages (ok moment) request expires_at = record {
    at = λ s. record {
      same_config = refl;
      same_own = refl;
      same_root = inr refl;
      counters = Extends-refl s.counters;
      memory =
          spend-IsMemory s.spent_challenges (to_ascii_lowercase request.challenge_id) expires_at
            moment s.config.max_consumed_challenges;
    };
  }

ruleset ages_rules = (
  Ages-pure, Ages-lift, Ages-gets, Ages-look, Ages-guard, Ages-bind, Ages-then, Ages-with_counters,
  Ages-with_join_nonces, spend_challenge-Ages,
)

module _ (c : Crypto) (j : CounterJson) where
  pub counters_read_handler-Ages :
      (now : ℕ) (signed : Signed) → Ages (counters_read_handler c j now signed)
  unfolding counters_read_handler
  counters_read_handler-Ages now signed = search (ages_rules, answer_read-Keeps) depth 9

  pub counters_merge_handler-Ages :
      (now : ℕ) (signed : Signed) → Ages (counters_merge_handler c j now signed)
  unfolding counters_merge_handler
  counters_merge_handler-Ages now signed = search (ages_rules, answer_merge-Keeps) depth 9

  read_counters-Ages :
      (libs : Libraries) (r : Request) (role : Role) (key_path : Str) (id : Option ℕ)
      → IsQuiet r.net
      → Ages (read_counters c libs j r role key_path id)
  unfolding read_counters
  read_counters-Ages libs r role key_path none quiet = search ages_rules depth 5
  read_counters-Ages libs r role key_path (some id) quiet = search (ages_rules, read-Keeps) depth 12

  release_key-Ages :
      (libs : Libraries) (r : Request) → IsQuiet r.net → Ages (release_key c libs j r)
  unfolding release_key
  release_key-Ages libs r quiet = search (ages_rules, read_counters-Ages) depth 16

  pub get_key_handler-Ages :
      (libs : Libraries) (r : Request) → IsQuiet r.net → Ages (get_key_handler c libs j r)
  unfolding get_key_handler
  get_key_handler-Ages libs r quiet = search (ages_rules, release_key-Ages) depth 9

  raise_entry-Keeps :
      (backend : TdxBackend) (r : Rounds) (path : Str) (node_id : ℕ) (entry : Entry)
      → IsQuiet r.read_net
      → IsQuiet r.net
      → Keeps (raise_entry c j backend r.read_net r.net r.read_nonce r.nonce path node_id entry)
  unfolding raise_entry
  raise_entry-Keeps backend r path node_id entry quiet_read quiet =
      write-Keeps c j backend r.read_net r.net r.read_nonce r.nonce path _ quiet_read quiet

  move_counter-Ages :
      (r : Rounds) (request : RollbackRequest) (path : Str) (kind : Kind)
      → IsQuiet r.first_net
      → IsQuiet r.read_net
      → IsQuiet r.net
      → Ages (move_counter c j r request path kind)
  unfolding move_counter
  move_counter-Ages r request path raise_call q1 q2 q3 =
      search (ages_rules, raise_entry-Keeps) depth 9
  move_counter-Ages r request path reset_call q1 q2 q3 = search (ages_rules, reset-Keeps) depth 9

  rollback-Ages :
      (r : Rounds) (request : RollbackRequest) (kind : Kind)
      → IsQuiet r.first_net
      → IsQuiet r.read_net
      → IsQuiet r.net
      → Ages (answer c j r request kind)
  unfolding answer
  rollback-Ages r request kind q1 q2 q3 = search (ages_rules, move_counter-Ages) depth 12

  pub handle-Ages :
      (r : Rounds) (request : RollbackRequest) (kind : Kind)
      → IsQuiet r.first_net
      → IsQuiet r.read_net
      → IsQuiet r.net
      → Ages (handle c j r request kind)
  unfolding handle
  handle-Ages r request kind q1 q2 q3 = search (ages_rules, rollback-Ages) depth 9

module _ (c : Crypto) (messages : Messages) (show_error : ServiceError → Str) where
  refusal-Later :
      (s : AppState) (checked : Service (Unit {0}))
      → Later s
          (elim checked as (λ _. AppState × Service (Unit {0})) [
            | ok _ ↦ (s, ok tt)
            | err e ↦ (record s { backend = record_join_refusal s.backend (show_error e) }, err e)
          ]).0
  unfolding record_join_refusal
  refusal-Later s (ok x) = Later-refl s
  refusal-Later s (err e) = record {
    same_config = refl;
    same_own = refl;
    same_root = inr refl;
    counters = Extends-refl s.counters;
    memory = λ m. m;
  }

  require_peer-Ages :
      (g : Giving) (quote_bytes nonce binding : Bytes)
      → Ages (require_peer c messages show_error g quote_bytes nonce binding)
  unfolding require_peer record_join_refusal
  require_peer-Ages g quote_bytes nonce binding = record {
    at = λ s. refusal-Later s (
        verify_peer c messages g.verify s.backend s.config.attestation_policy quote_bytes nonce
          binding);
  }

  pub join_handler-Ages :
      (g : Giving) (request : JoinRequest) → Ages (join_handler c messages show_error g request)
  unfolding join_handler
  join_handler-Ages g request = search (ages_rules, require_peer-Ages) depth 30
