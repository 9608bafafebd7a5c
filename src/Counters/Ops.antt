-- ===== src/Counters/Ops.antt =====
-- mero-kms/src/counters.rs, the operations of `Counters`: reads and writes over a majority, the
-- raise and the reset of a node's counter, and the sync of a replica that joins.
use mero_tee.Prelude.{
  ℕ, ◌+◌, ◌*◌, min, Bool, true, false, not, ◌&&◌, ◌||◌, Option, none, some, List, [], ◌∷◌, leb, ltb,
  ◌==◌, if◌then◌else◌, length, any, all, filter, is_empty,
}
use mero_tee.Text.{Str, Bytes, lit, u64_max}
use mero_tee.Errors.{Result, Service, ServiceError, ok, err, counter_limit}
use mero_tee.Errors
use mero_tee.Exec.{Exec, pure, lift, gets, modify, guard, ◌>>=◌, ◌>>◌}
use mero_tee.Map.{get}
use mero_tee.Map.Order.{list_ord, nat_ord}
use mero_tee.Crypto.{Crypto}
use mero_tee.Backend.{TdxBackend, counters_key}
use mero_tee.Counters.{Entry, ClusterCounters, CounterMap, counters_or_default, merge, merge_map}
use mero_tee.Counters.Replica.{
  Counters, CounterJson, Net, Answer, MergeBody, majority, merge_own, set_inner, round,
  read_request, require_ready, sign, merge_domain, learn_formed, bootstrap, not_formed, too_few,
  nanos_per_sec,
}

unfoldable pub read_path : Str
read_path = lit "cluster/counters/read"

unfoldable pub merge_path : Str
merge_path = lit "cluster/counters/merge"

-- `for answer in ready { if let Some(theirs) = .. { view.merge(theirs)?; } }`
unfoldable pub merge_answers : Str → ClusterCounters → List Answer → Service ClusterCounters
merge_answers path view [] = ok view
merge_answers path view (a ∷ answers) = elim (get a.counters path) [
  | none ↦ merge_answers path view answers
  | some theirs ↦ Errors.◌>>=◌ (merge view theirs) λ merged. merge_answers path merged answers
]

unfoldable pub ready_answers : List Answer → List Answer
ready_answers = filter (λ a. a.ready)

unfoldable pub any_formed : List Answer → Bool
any_formed = any (λ a. a.formed)

smaller : Option ℕ → Option ℕ → Option ℕ
smaller none b = b
smaller (some a) none = some a
smaller (some a) (some b) = some (min a b)

-- `for answer in &ready { merge_map(&mut inner.map, &answer.counters)?; }`
unfoldable pub merge_all : CounterMap → List Answer → CounterMap × Service (Unit {0})
merge_all into [] = (into, ok tt)
merge_all into (a ∷ answers) =
    let rest = merge_all (merge_map into a.counters).0 answers in
    elim (merge_map into a.counters).1 [
      | ok _ ↦ rest
      | err e ↦ ((merge_map into a.counters).0, err e)
    ]

unfoldable pub merge_all_own : List Answer → Exec Counters (Unit {0})
unfolding merge_all
merge_all_own answers self = (
  record self { inner = record (self.inner) { map = (merge_all self.inner.map answers).0 } },
  (merge_all self.inner.map answers).1,
)

-- `c.counters.values().all(|c| c.nodes.is_empty())`
unfoldable pub holds_nothing : CounterMap → Bool
holds_nothing m = all (λ e. is_empty e.1.nodes) m

pub in_genesis : Answer → Bool
unfolding holds_nothing
in_genesis a =
    (elim a.genesis_secs [ none ↦ false | some _ ↦ true ])
    && not a.formed
    && holds_nothing a.counters

-- `filter_map(|a| a.genesis_secs).min().unwrap_or(0)`
least : Option ℕ → List Answer → ℕ
unfolding smaller
least none [] = 0
least (some n) [] = n
least best (a ∷ answers) = least (smaller best a.genesis_secs) answers

module _ (c : Crypto) (j : CounterJson) (backend : TdxBackend) where
  -- What a read does with the answers of its round.
  unfoldable pub finish_read : Str → ClusterCounters → List Answer → Exec Counters ClusterCounters
  unfolding learn_formed merge_own ready_answers any_formed
  finish_read path view answers = do
    replicas ← gets (λ s. s.replicas)
    let ready = ready_answers answers
    set_inner
        (λ i. if leb replicas (length ready + 1) || any_formed answers then learn_formed i else i)
    formed ← gets (λ s. s.inner.formed)
    guard formed (not_formed (length ready + 1) replicas)
    needed ← gets majority
    guard (leb needed (length ready + 1))
        (too_few (length ready + 1) replicas " replicas answered; a read needs " needed)
    merged ← lift (merge_answers path view ready)
    merge_own path merged
    pure merged

  -- The round of a read, from this replica's own view.
  unfoldable pub gather : Net → Bytes → Str → ClusterCounters → Exec Counters ClusterCounters
  gather net nonce path view = do
    (nonce_b64, signed) ← read_request c j backend (some path) nonce
    answers ← round c j backend net read_path nonce_b64 signed
    finish_read path view answers

  -- `Counters::read`
  unfoldable pub read : Net → Bytes → Str → Exec Counters ClusterCounters
  unfolding require_ready
  read net nonce path = do
    require_ready
    view ← gets (λ s. counters_or_default (get s.inner.map path))
    replicas ← gets (λ s. s.replicas)
    if replicas == 1 then pure view else gather net nonce path view

  -- What a write does with the answers of its round.
  unfoldable pub finish_write : Str → ClusterCounters → List Answer → Exec Counters ClusterCounters
  unfolding merge_own
  finish_write path view answers = do
    replicas ← gets (λ s. s.replicas)
    needed ← gets majority
    guard (leb needed (length answers + 1))
        (too_few (length answers + 1) replicas " replicas took the write; it needs " needed)
    merged ← lift (merge_answers path view answers)
    merge_own path merged
    pure merged

  -- The round of a write, from what this replica holds after its own merge.
  unfoldable pub spread :
      Net → Bytes → Str → ClusterCounters → ClusterCounters → Exec Counters ClusterCounters
  spread net nonce path update view = do
    let body : MergeBody = record {
      nonce_b64 = c.base64_encode nonce;
      key_path = path;
      counters = update;
    }
    key ← lift (counters_key c backend)
    signed ← lift (sign c key merge_domain (j.merge_to body))
    answers ← round c j backend net merge_path (c.base64_encode nonce) signed
    finish_write path view answers

  -- `Counters::write`; a cluster that is not known to have formed is read first.
  unfoldable pub write :
      Net → Net → Bytes → Bytes → Str → ClusterCounters → Exec Counters ClusterCounters
  unfolding require_ready merge_own
  write read_net net read_nonce nonce path update = do
    require_ready
    formed ← gets (λ s. s.inner.formed)
    if formed then pure tt else (do read read_net read_nonce path; pure tt)
    view ← merge_own path update
    replicas ← gets (λ s. s.replicas)
    if replicas == 1 then pure view else spread net nonce path update view

  -- `Counters::raise`
  unfoldable pub raise_entry :
      Net → Net → Bytes → Bytes → Str → ℕ → Entry → Exec Counters ClusterCounters
  raise_entry read_net net read_nonce nonce path node entry =
      write read_net net read_nonce nonce path (record { epoch = 0; nodes = (node, entry) ∷ [] })

  abbrev pub epoch_limit : ServiceError
  epoch_limit = counter_limit (lit "the cluster's epoch is at its maximum")

  -- What a reset writes: one epoch up, and the entry at that epoch and the store's mark.
  abbrev pub reset_update : ℕ → ℕ → ℕ → ClusterCounters
  reset_update epoch node mark = record {
    epoch = epoch;
    nodes = (node, record { generation = epoch; mark = mark }) ∷ [];
  }

  -- `Counters::reset`
  unfoldable pub reset :
      Net → Net → Net → Bytes → Bytes → Bytes → Str → ℕ → ℕ → Exec Counters ClusterCounters
  reset first_net read_net net first_nonce read_nonce nonce path node mark = do
    current ← read first_net first_nonce path
    guard (ltb current.epoch u64_max) epoch_limit
    write read_net net read_nonce nonce path (reset_update (current.epoch + 1) node mark)

  -- What a sync does with the answers of its round, at the instant `now`.
  unfoldable pub finish_sync : ℕ → List Answer → Exec Counters Bool
  unfolding learn_formed ready_answers any_formed merge_all_own in_genesis least
  finish_sync now answers = do
    let ready = ready_answers answers
    needed ← gets majority
    if leb needed (length ready)
        then (do
          merge_all_own ready
          set_inner (λ i. record i { ready = true })
          set_inner (λ i. if any_formed answers then learn_formed i else i)
          pure true)
        else if not (is_empty ready) && all in_genesis ready && not (any_formed answers)
        then (do
          set_inner (λ i. record i {
            ready = true;
            genesis_until = some (now + least none ready * nanos_per_sec);
          })
          pure true)
        else pure false

  -- `Counters::sync_once`; `now` is the instant read after the round (or at the bootstrap).
  unfoldable pub sync_once : Net → Bytes → ℕ → Exec Counters Bool
  unfolding bootstrap
  sync_once net nonce now = do
    ready ← gets (λ s. s.inner.ready)
    replicas ← gets (λ s. s.replicas)
    if ready
        then pure true
        else if replicas == 1
        then (do modify (λ s. bootstrap s now); pure true)
        else do
          (nonce_b64, signed) ← read_request c j backend none nonce
          answers ← round c j backend net read_path nonce_b64 signed
          finish_sync now answers
