-- ===== src/Counters/Acknowledged.antt =====
-- mero-kms/src/counters.rs: every read meets every acknowledged write. A write that returned is
-- held by a majority, a read that returned has met a majority, and the two majorities have a
-- replica in common, which loses nothing in between.
use mero_tee.Prelude.{
  ℕ, ◌≤◌, ◌≡◌, sym, ◌∙◌, subst, true, List, length, ◌==◌, arith, inl, inr, Bool-cases,
}
use mero_tee.Text.{Str, Bytes}
use mero_tee.Errors.{ok}
use mero_tee.Map.Order.{list_ord, nat_ord}
use mero_tee.Crypto.{Crypto, CodecLaws, MacLaws}
use mero_tee.Backend.{TdxBackend, counters_key}
use mero_tee.Counters.{ClusterCounters, CounterMap}
use mero_tee.Counters.Replica.{Counters, CounterJson, Net, merge_own}
use mero_tee.Counters.Ops.{read, write}
use mero_tee.Counters.Growth.{Covers, Covers-trans, Grows, held, held-merge_cluster}
use mero_tee.Counters.Answers.{JsonLaws}
use mero_tee.Counters.Quorum.{mem, Quorum, quorums_meet}
use mero_tee.Counters.Steps.{IsQuiet, Extends-trans, merge_own-Keeps, spread-Keeps}
use mero_tee.Counters.Rounds.{alone-Quorum}
use mero_tee.Counters.Rounds.Writes.{GenuineWrite, spread-Quorum, write_inv}
use mero_tee.Counters.Rounds.Reads.{GenuineRead, gather-Quorum}

merge_own-holds :
    (path : Str) (update merged : ClusterCounters) (s : Counters)
    → (merge_own path update s).1 ≡ ok merged
    → Covers (held (merge_own path update s).0.inner.map path) update
unfolding merge_own
merge_own-holds path update merged s e =
    let (held_is, written, kept) = held-merge_cluster s.inner.map path update merged e in
    rw held_is written

module _ (c : Crypto) (j : CounterJson) (backend : TdxBackend) (key : Bytes) (codec : CodecLaws c)
    (mac : MacLaws c) (json : JsonLaws j) (keyed : counters_key c backend ≡ ok key)
    (members : List Bytes) (count : ℕ) (later : Bytes → CounterMap) where
  -- A write that returned is held by a majority of the cluster from then on.
  pub write-Quorum :
      (read_net net : Net) (read_nonce nonce : Bytes) (path : Str) (update view : ClusterCounters)
      (w w' : Counters)
      → IsQuiet read_net
      → IsQuiet net
      → w.replicas ≡ count
      → mem w.replica_id members ≡ true
      → GenuineWrite c j backend key codec mac json keyed members count later net nonce path update
      → write c j backend read_net net read_nonce nonce path update w ≡ (w', ok view)
      → Grows w'.inner.map (later w.replica_id)
      → Quorum members count (λ id. Covers (held (later id) path) update)
  write-Quorum read_net net read_nonce nonce path update view w w' quiet_read quiet counted member
        genuine written grows =
      let (w1, merged, extends, e, last) =
        write_inv c j backend read_net net read_nonce nonce path update view w w' quiet_read
          written in
      let w2 : Counters = (merge_own path update w1).0 in
      let own = Extends-trans w w1 w2 extends ((merge_own-Keeps path update).at w1) in
      let holds : Covers (held w2.inner.map path) update =
        merge_own-holds path update merged w1 e in
      elim last [
        | inl (one, alone) ↦
            alone-Quorum members count (λ id. Covers (held (later id) path) update) w.replica_id
              (omega (arith, extends.same_count)) member
              (Covers-trans (held (later w.replica_id) path) (held w'.inner.map path) update
                (grows.at path)
                (subst (λ (s : Counters). Covers (held s.inner.map path) update) (sym alone) holds))
        | inr spreads ↦
            let after = (spread-Keeps c j backend net nonce path update merged quiet).at w2 in
            let kept : Grows w2.inner.map w'.inner.map = rw spreads at after.grows in
            let grown =
              Covers-trans (held (later w.replica_id) path) (held w'.inner.map path) update
                (grows.at path)
                (Covers-trans (held w'.inner.map path) (held w2.inner.map path) update
                  (kept.at path) holds) in
            spread-Quorum c j backend key codec mac json keyed members count later net nonce path
              update merged view w2 w' spreads (own.same_count ∙ counted) (rw own.same_id member)
              (rw own.same_id grown) genuine
      ]

  -- A read that returned has met the views of a majority of the cluster.
  pub read-Quorum :
      (net : Net) (nonce : Bytes) (path : Str) (view : ClusterCounters) (r r' : Counters)
      → r.replicas ≡ count
      → mem r.replica_id members ≡ true
      → GenuineRead c j backend key codec mac json keyed members count later net nonce path
      → Grows (later r.replica_id) r.inner.map
      → read c j backend net nonce path r ≡ (r', ok view)
      → Quorum members count (λ id. Covers view (held (later id) path))
  unfolding read
  read-Quorum net nonce path view r r' counted member genuine grows h =
      elim (Bool-cases (r.replicas == 1)) [
        | inl one ↦
            let same : view ≡ held r.inner.map path = ground arith in
            alone-Quorum members count (λ id. Covers view (held (later id) path)) r.replica_id
              (ground arith) member (rw same (grows.at path))
        | inr many ↦
            gather-Quorum c j backend key codec mac json keyed members count later net nonce path
              (held r.inner.map path) view r r' (ground arith) counted member (grows.at path)
              genuine
      ]

  -- Every read meets every acknowledged write. Let a write by replica `w` return, and a read by
  -- replica `r` return later; let every replica lose nothing in between (`later` is what each
  -- holds at some moment between the two), and let the replies whose MAC checks out be genuine.
  -- Then what the read returns covers the update: its epoch, and the entry of every node.
  pub read_meets_write :
      (read_net net net' : Net) (read_nonce nonce nonce' : Bytes) (path : Str)
      (update view view' : ClusterCounters) (w w' r r' : Counters)
      → length members ≤ count
      → w.replicas ≡ count
      → r.replicas ≡ count
      → mem w.replica_id members ≡ true
      → mem r.replica_id members ≡ true
      → IsQuiet read_net
      → IsQuiet net
      → GenuineWrite c j backend key codec mac json keyed members count later net nonce path update
      → GenuineRead c j backend key codec mac json keyed members count later net' nonce' path
      → write c j backend read_net net read_nonce nonce path update w ≡ (w', ok view)
      → Grows w'.inner.map (later w.replica_id)
      → Grows (later r.replica_id) r.inner.map
      → read c j backend net' nonce' path r ≡ (r', ok view')
      → Covers view' update
  read_meets_write read_net net net' read_nonce nonce nonce' path update view view' w w' r r' fits
        counted counted' member member' quiet_read quiet genuine genuine' written grows grows'
        was_read =
      let (id, wrote, met) =
        quorums_meet members count (λ id. Covers (held (later id) path) update)
          (λ id. Covers view' (held (later id) path)) fits
          (write-Quorum read_net net read_nonce nonce path update view w w' quiet_read quiet counted
            member genuine written grows)
          (read-Quorum net' nonce' path view' r r' counted' member' genuine' grows' was_read) in
      Covers-trans view' (held (later id) path) update met wrote
