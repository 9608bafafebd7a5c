-- ===== src/Counters/Steps.antt =====
-- mero-kms/src/counters.rs: every operation keeps the replica's identity and all that it holds,
-- whether it succeeds or fails, and whatever other requests do while it waits.
use mero_tee.Prelude.{ℕ, ◌≡◌, refl, ◌∙◌, Bool, true, false, Option, List, if◌then◌else◌, arith}
use mero_tee.Text.{Str, Bytes}
use mero_tee.Errors.{Service, ServiceError, ok, err}
use mero_tee.Exec.{Exec, pure, lift, gets, modify, guard, ◌>>=◌, ◌>>◌, continue}
use mero_tee.Crypto.{Crypto}
use mero_tee.Backend.{TdxBackend}
use mero_tee.Counters.{ClusterCounters, CounterMap}
use mero_tee.Counters.Replica.{
  Counters, Inner, CounterJson, Net, Answer, Signed, merge_own, set_inner, round, read_request,
  require_ready, learn_formed, bootstrap, answer_read, answer_merge,
}
use mero_tee.Counters.Ops.{
  finish_read, gather, read, finish_write, spread, write, reset, merge_all_own, finish_sync,
  sync_once,
}
use mero_tee.Counters.Growth.{Grows, Grows-refl, Grows-trans, merge_cluster-Grows, merge_all-Grows}

-- The same replica later, with nothing lost.
pub record Extends (s s' : Counters) : Type 0 where
  pub same_id : s'.replica_id ≡ s.replica_id
  pub same_count : s'.replicas ≡ s.replicas
  pub grows : Grows s.inner.map s'.inner.map

pub Extends-refl : (s : Counters) → Extends s s
Extends-refl s = record { same_id = refl; same_count = refl; grows = Grows-refl s.inner.map }

pub Extends-trans : (a b c : Counters) → Extends a b → Extends b c → Extends a c
Extends-trans a b c h k = record {
  same_id = k.same_id ∙ h.same_id;
  same_count = k.same_count ∙ h.same_count;
  grows = Grows-trans a.inner.map b.inner.map c.inner.map h.grows k.grows;
}

-- An action that only ever extends the replica's state, failing or not.
pub record Keeps {A : Type 0} (m : Exec Counters A) : Type 0 where
  pub at : (s : Counters) → Extends s (m s).0

module _ {A : Type 0} where
  Keeps-pure : (a : A) → Keeps (pure {S = Counters} a)
  Keeps-pure a = record { at = Extends-refl }

  Keeps-lift : (r : Service A) → Keeps (lift {S = Counters} r)
  Keeps-lift r = record { at = Extends-refl }

  Keeps-gets : (f : Counters → A) → Keeps (gets f)
  Keeps-gets f = record { at = Extends-refl }

  Keeps-if : (b : Bool) (m n : Exec Counters A) → Keeps m → Keeps n → Keeps (if b then m else n)
  Keeps-if true m n h k = h
  Keeps-if false m n h k = k

Keeps-guard : (b : Bool) (e : ServiceError) → Keeps (guard {S = Counters} b e)
Keeps-guard b e = record { at = Extends-refl }

module _ {A B : Type 0} (f : A → Exec Counters B) (kf : (a : A) → Keeps (f a)) where
  continue-Extends :
      (s : Counters) (r : Counters × Service A) → Extends s r.0 → Extends s (continue f r).0
  continue-Extends s (t, ok a) h = Extends-trans s t (f a t).0 h ((kf a).at t)
  continue-Extends s (t, err e) h = h

Keeps-bind :
    {A B : Type 0} (m : Exec Counters A) (f : A → Exec Counters B)
    → Keeps m
    → ((a : A) → Keeps (f a))
    → Keeps (m >>= f)
Keeps-bind m f km kf = record { at = λ s. continue-Extends f kf s (m s) (km.at s) }

Keeps-then :
    {A B : Type 0} (m : Exec Counters A) (n : Exec Counters B) → Keeps m → Keeps n → Keeps (m >> n)
Keeps-then m n km kn = record { at = λ s. continue-Extends (λ _. n) (λ _. kn) s (m s) (km.at s) }

-- A change of the state that leaves the map as it is, or only adds to it.
Keeps-set_inner : (f : Inner → Inner) → ((i : Inner) → Grows i.map (f i).map) → Keeps (set_inner f)
Keeps-set_inner f h = record {
  at = λ s. record { same_id = refl; same_count = refl; grows = h s.inner };
}

pub merge_own-Keeps : (path : Str) (c : ClusterCounters) → Keeps (merge_own path c)
unfolding merge_own
merge_own-Keeps path c = record {
  at = λ s. record {
    same_id = refl;
    same_count = refl;
    grows = merge_cluster-Grows s.inner.map path c;
  };
}

merge_all_own-Keeps : (answers : List Answer) → Keeps (merge_all_own answers)
unfolding merge_all_own
merge_all_own-Keeps answers = record {
  at = λ s. record {
    same_id = refl;
    same_count = refl;
    grows = merge_all-Grows s.inner.map answers;
  };
}

Grows-of_eq : (m m' : CounterMap) → m' ≡ m → Grows m m'
Grows-of_eq m m' e = rw e (Grows-refl m)

map-learn_formed : (i : Inner) → (learn_formed i).map ≡ i.map
unfolding learn_formed
map-learn_formed i = ground arith

learn_formed-Keeps : Keeps (set_inner learn_formed)
learn_formed-Keeps =
    Keeps-set_inner learn_formed (λ i. Grows-of_eq i.map (learn_formed i).map (map-learn_formed i))

learn_if-Keeps : (b : Bool) → Keeps (set_inner (λ i. if b then learn_formed i else i))
learn_if-Keeps true = learn_formed-Keeps
learn_if-Keeps false = Keeps-set_inner (λ i. i) (λ i. Grows-refl i.map)

require_ready-Keeps : Keeps require_ready
unfolding require_ready
require_ready-Keeps = record { at = Extends-refl }

ruleset keeps_rules = (
  Keeps-pure, Keeps-lift, Keeps-gets, Keeps-if, Keeps-guard, Keeps-bind, Keeps-then,
  merge_own-Keeps, merge_all_own-Keeps, learn_formed-Keeps, learn_if-Keeps, require_ready-Keeps,
)

module _ (c : Crypto) (j : CounterJson) (backend : TdxBackend) where
  -- Answering a peer's read loses nothing.
  pub answer_read-Keeps : (now : ℕ) (signed : Signed) → Keeps (answer_read c j backend now signed)
  unfolding answer_read
  answer_read-Keeps now signed = search keeps_rules depth 9

  -- Answering a peer's write loses no counter and no epoch that the replica held, whether it is
  -- merged or refused.
  pub answer_merge-Keeps : (now : ℕ) (signed : Signed) → Keeps (answer_merge c j backend now signed)
  unfolding answer_merge
  answer_merge-Keeps now signed = search keeps_rules depth 9

  finish_read-Keeps :
      (path : Str) (view : ClusterCounters) (answers : List Answer)
      → Keeps (finish_read c j backend path view answers)
  unfolding finish_read
  finish_read-Keeps path view answers = search keeps_rules depth 12

  finish_write-Keeps :
      (path : Str) (view : ClusterCounters) (answers : List Answer)
      → Keeps (finish_write c j backend path view answers)
  unfolding finish_write
  finish_write-Keeps path view answers = search keeps_rules depth 12

  read_request-Keeps :
      (path : Option Str) (nonce : Bytes) → Keeps (read_request c j backend path nonce)
  unfolding read_request
  read_request-Keeps path nonce = search keeps_rules depth 9

-- While a call waits, the replica's other requests lose nothing.
pub record IsQuiet (net : Net) : Type 0 where
  pub at : (i : Inner) → Grows i.map (net.meanwhile i).map

meanwhile-Keeps : (net : Net) → IsQuiet net → Keeps (set_inner net.meanwhile)
meanwhile-Keeps net quiet = Keeps-set_inner net.meanwhile quiet.at

ready-Keeps :
    (until : Option ℕ) → Keeps (set_inner (λ i. record i { ready = true; genesis_until = until }))
ready-Keeps until =
    Keeps-set_inner (λ i. record i { ready = true; genesis_until = until }) (λ i. Grows-refl i.map)

synced-Keeps : Keeps (set_inner (λ i. record i { ready = true }))
synced-Keeps = Keeps-set_inner (λ i. record i { ready = true }) (λ i. Grows-refl i.map)

bootstrap-map : (s : Counters) (now : ℕ) → (bootstrap s now).inner.map ≡ s.inner.map
unfolding bootstrap learn_formed
bootstrap-map s now = ground arith

bootstrap-Keeps : (now : ℕ) → Keeps (modify (λ s. bootstrap s now))
unfolding bootstrap
bootstrap-Keeps now = record {
  at = λ s. record {
    same_id = refl;
    same_count = refl;
    grows = Grows-of_eq s.inner.map (bootstrap s now).inner.map (bootstrap-map s now);
  };
}

ruleset wait_rules = (keeps_rules, meanwhile-Keeps, ready-Keeps, synced-Keeps, bootstrap-Keeps)

module _ (c : Crypto) (j : CounterJson) (backend : TdxBackend) where
  round-Keeps :
      (net : Net) (path nonce_b64 : Str) (signed : Signed)
      → IsQuiet net
      → Keeps (round c j backend net path nonce_b64 signed)
  unfolding round
  round-Keeps net path nonce_b64 signed quiet = search wait_rules depth 12

  pub gather-Keeps :
      (net : Net) (nonce : Bytes) (path : Str) (view : ClusterCounters)
      → IsQuiet net
      → Keeps (gather c j backend net nonce path view)
  unfolding gather
  gather-Keeps net nonce path view quiet =
      search (wait_rules, round-Keeps, read_request-Keeps, finish_read-Keeps) depth 14

  pub spread-Keeps :
      (net : Net) (nonce : Bytes) (path : Str) (update view : ClusterCounters)
      → IsQuiet net
      → Keeps (spread c j backend net nonce path update view)
  unfolding spread
  spread-Keeps net nonce path update view quiet =
      search (wait_rules, round-Keeps, finish_write-Keeps) depth 14

  -- A read loses nothing, whether it succeeds or fails.
  pub read-Keeps :
      (net : Net) (nonce : Bytes) (path : Str)
      → IsQuiet net
      → Keeps (read c j backend net nonce path)
  unfolding read
  read-Keeps net nonce path quiet = search (wait_rules, gather-Keeps) depth 14

  -- A write loses no counter and no epoch that the replica held, whether it succeeds or fails, if
  -- what the replica does while the write waits loses none.
  pub write-Keeps :
      (read_net net : Net) (read_nonce nonce : Bytes) (path : Str) (update : ClusterCounters)
      → IsQuiet read_net
      → IsQuiet net
      → Keeps (write c j backend read_net net read_nonce nonce path update)
  unfolding write
  write-Keeps read_net net read_nonce nonce path update quiet_read quiet =
      search (wait_rules, read-Keeps, spread-Keeps) depth 16

  -- A reset lowers no counter and no epoch that the replica held, whether it succeeds or fails, if
  -- what the replica does while the reset waits lowers none.
  pub reset-Keeps :
      (first_net read_net net : Net) (first_nonce read_nonce nonce : Bytes) (path : Str)
      (node mark : ℕ)
      → IsQuiet first_net
      → IsQuiet read_net
      → IsQuiet net
      → Keeps (reset c j backend first_net read_net net first_nonce read_nonce nonce path node mark)
  unfolding reset
  reset-Keeps first_net read_net net first_nonce read_nonce nonce path node mark q1 q2 q3 =
      search (wait_rules, read-Keeps, write-Keeps) depth 9

  finish_sync-Keeps :
      (now : ℕ) (answers : List Answer) → Keeps (finish_sync c j backend now answers)
  unfolding finish_sync
  finish_sync-Keeps now answers = search wait_rules depth 12

  -- A sync loses no counter and no epoch that the replica held, if what the replica does while the
  -- sync waits loses none.
  pub sync_once-Keeps :
      (net : Net) (nonce : Bytes) (now : ℕ)
      → IsQuiet net
      → Keeps (sync_once c j backend net nonce now)
  unfolding sync_once
  sync_once-Keeps net nonce now quiet =
      search (wait_rules, round-Keeps, read_request-Keeps, finish_sync-Keeps) depth 14
