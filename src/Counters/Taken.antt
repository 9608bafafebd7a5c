-- ===== src/Counters/Taken.antt =====
-- mero-kms/src/counters.rs, `Counters::write` and `Counters::raise`: what the counters that a call
-- answers with have taken in.
use mero_tee.Prelude.{
  ℕ, ◌≡◌, sym, some, List, [], ◌∷◌, if◌then◌else◌, arith, inl, inr, Bool-cases, subst, ◌==◌,
}
use mero_tee.Text.{Str, Bytes}
use mero_tee.Errors.{ok, Result-cases}
use mero_tee.Exec.{pure, gets, ◌>>=◌}
use mero_tee.Map.{get}
use mero_tee.Map.Order.{nat_ord, list_ord}
use mero_tee.Crypto.{Crypto}
use mero_tee.Backend.{TdxBackend, counters_key}
use mero_tee.Counters.{Entry, ClusterCounters}
use mero_tee.Counters.Replica.{
  Counters, CounterJson, Net, Answer, MergeBody, merge_own, round, sign, merge_domain,
}
use mero_tee.Counters.Ops.{
  read, write, spread, finish_write, merge_answers, merge_path, raise_entry,
}
use mero_tee.Counters.Merge.{join, get_cons_self}
use mero_tee.Counters.Growth.{Below, Covers, Covers-trans, held-merge_cluster}
use mero_tee.Counters.Ready.{merge_answers-Covers}

merge_own-Covers :
    (path : Str) (update merged : ClusterCounters) (s : Counters)
    → (merge_own path update s).1 ≡ ok merged
    → Covers merged update
unfolding merge_own
merge_own-Covers path update merged s h =
    let (stored, taken, kept) = held-merge_cluster s.inner.map path update merged h in taken

module _ (c : Crypto) (j : CounterJson) (backend : TdxBackend) where
  finish_write-Covers :
      (path : Str) (view out : ClusterCounters) (answers : List Answer) (s s' : Counters)
      → finish_write c j backend path view answers s ≡ (s', ok out)
      → Covers out view
  unfolding finish_write
  finish_write-Covers path view out answers s s' h =
      elim (Result-cases (merge_answers path view answers)) [
        | inr (e, failed) ↦ absurd (ground arith)
        | inl (merged, done) ↦
            let same : merged ≡ out = elim (Result-cases (merge_own path merged s).1) [
              | inl (v, stored) ↦ ground arith
              | inr (e, failed) ↦ absurd (ground arith)
            ] in
            rw (sym same) ((merge_answers-Covers path view answers merged done).0)
      ]

  spread-Covers :
      (net : Net) (nonce : Bytes) (path : Str) (update view out : ClusterCounters) (s s' : Counters)
      → spread c j backend net nonce path update view s ≡ (s', ok out)
      → Covers out view
  unfolding spread
  spread-Covers net nonce path update view out s s' h =
      let body : MergeBody = record {
        nonce_b64 = c.base64_encode nonce;
        key_path = path;
        counters = update;
      } in
      elim (Result-cases (counters_key c backend)) [
        | inr (e, failed) ↦ absurd (ground arith)
        | inl (key, keyed) ↦ elim (Result-cases (sign c key merge_domain (j.merge_to body))) [
          | inr (e, failed) ↦ absurd (ground arith)
          | inl (signed, e) ↦
              let asked = round c j backend net merge_path (c.base64_encode nonce) signed s in
              elim (Result-cases asked.1) [
                | inr (x, failed) ↦ absurd (ground arith)
                | inl (answers, got) ↦
                    finish_write-Covers path view out answers asked.0 s' (ground arith)
              ]
        ]
      ]

  from_own :
      (net : Net) (nonce : Bytes) (path : Str) (update view : ClusterCounters) (s w' : Counters)
      → ((merge_own path update >>= λ mine. gets (λ s. s.replicas) >>= λ replicas.
            if replicas == 1 then pure mine else spread c j backend net nonce path update mine)
          s)
        ≡ (w', ok view)
      → Covers view update
  from_own net nonce path update view s w' h = elim (Result-cases (merge_own path update s).1) [
    | inr (e, failed) ↦ absurd (ground arith)
    | inl (merged, done) ↦ elim (Bool-cases ((merge_own path update s).0.replicas == 1)) [
      | inl one ↦
          let same : merged ≡ view = ground arith in
          rw (sym same) (merge_own-Covers path update merged s done)
      | inr many ↦
          Covers-trans view merged update
            (spread-Covers net nonce path update merged view (merge_own path update s).0 w'
              (ground arith))
            (merge_own-Covers path update merged s done)
    ]
  ]

  write-Covers :
      (read_net net : Net) (read_nonce nonce : Bytes) (path : Str) (update view : ClusterCounters)
      (w w' : Counters)
      → write c j backend read_net net read_nonce nonce path update w ≡ (w', ok view)
      → Covers view update
  unfolding write
  write-Covers read_net net read_nonce nonce path update view w w' h =
      elim (Bool-cases w.inner.formed) [
        | inl formed ↦ from_own net nonce path update view w w' (ground arith)
        | inr unformed ↦
            let first = read c j backend read_net read_nonce path w in
            elim (Result-cases first.1) [
              | inr (x, failed) ↦ absurd (ground arith)
              | inl (v, done) ↦ from_own net nonce path update view first.0 w' (ground arith)
            ]
      ]

  -- A raise that is acknowledged answers with counters in which the node's entry is at least the one
  -- that was asked for: the larger of the two is the one answered.
  pub raise_entry-raises :
      (read_net net : Net) (read_nonce nonce : Bytes) (path : Str) (node : ℕ) (entry : Entry)
      (view : ClusterCounters) (w w' : Counters)
      → raise_entry c j backend read_net net read_nonce nonce path node entry w ≡ (w', ok view)
      → join (get view.nodes node) (some entry) ≡ get view.nodes node
  unfolding raise_entry
  raise_entry-raises read_net net read_nonce nonce path node entry view w w' h =
      let update : ClusterCounters = record { epoch = 0; nodes = (node, entry) ∷ [] } in
      let covers = write-Covers read_net net read_nonce nonce path update view w w' h in
      let below = covers.nodes node in
      subst (λ o. Below o (get view.nodes node)) (get_cons_self [] node entry) below
