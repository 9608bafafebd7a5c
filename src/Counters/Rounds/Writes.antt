-- ===== src/Counters/Rounds/Writes.antt =====
-- mero-kms/src/counters.rs: a write that returned is held by a majority.
use mero_tee.Prelude.{
  ℕ, ◌+◌, ◌/◌, ◌≤◌, ◌≡◌, true, some, List, [], ◌∷◌, length, ◌==◌, arith, ◌⊎◌, inl, inr, Bool-cases,
}
use mero_tee.Text.{Str, Bytes}
use mero_tee.Errors.{ok, Result-cases}
use mero_tee.Map.Order.{list_ord, nat_ord}
use mero_tee.Crypto.{Crypto, CodecLaws, MacLaws}
use mero_tee.Backend.{TdxBackend, counters_key}
use mero_tee.Counters.{ClusterCounters, CounterMap}
use mero_tee.Counters.Replica.{
  Counters, CounterJson, Net, AnswerBody, MergeBody, Signed, usable, sign, merge_domain,
  answer_merge, replies_to, merge_own,
}
use mero_tee.Counters.Ops.{read, write, spread, finish_write, merge_path}
use mero_tee.Counters.Growth.{Covers, Covers-trans, Grows, held}
use mero_tee.Counters.Answers.{
  JsonLaws, open_signed-sign, tagged, tagged-Fresh, tagged-All, tagged-Distinct, unseen,
}
use mero_tee.Counters.Quorum.{mem, Quorum}
use mero_tee.Counters.Genuine.{answer_merge-holds}
use mero_tee.Counters.Steps.{IsQuiet, Extends, Extends-refl, read-Keeps}
use mero_tee.Counters.Ready.{length-answers, All-mono}
use mero_tee.Counters.Rounds.{IsGenuine, quorum_of, round_ok}

module _ (c : Crypto) (j : CounterJson) (backend : TdxBackend) (key : Bytes) (codec : CodecLaws c)
    (mac : MacLaws c) (json : JsonLaws j) (keyed : counters_key c backend ≡ ok key)
    (members : List Bytes) (count : ℕ) (later : Bytes → CounterMap) where
  -- The reply to a write was sent by a member, which later still holds what it then held.
  pub record MergeSent (signed reply : Signed) : Type 0 where
    pub now : ℕ
    pub sender : Counters
    pub after : Counters
    pub answered : answer_merge c j backend now signed sender ≡ (after, ok reply)
    pub member : mem sender.replica_id members ≡ true
    pub keeps : Grows after.inner.map (later sender.replica_id)

  abbrev pub merge_body : Bytes → Str → ClusterCounters → MergeBody
  merge_body nonce path update = record {
    nonce_b64 = c.base64_encode nonce;
    key_path = path;
    counters = update;
  }

  -- What a member that counts in a write's round proves.
  pub merge_sent :
      (nonce : Bytes) (path : Str) (update : ClusterCounters) (signed reply : Signed)
      (body : AnswerBody) (id : Bytes)
      → sign c key merge_domain (j.merge_to (merge_body nonce path update)) ≡ ok signed
      → usable c j backend key (c.base64_encode nonce) reply ≡ some (body, id)
      → MergeSent signed reply
      → (mem id members ≡ true) × Covers (held (later id) path) update
  merge_sent nonce path update signed reply body id is_signed counted sent =
      let request = merge_body nonce path update in
      let opened =
        open_signed-sign c key merge_domain request (j.merge_to request) j.merge_from signed codec
          mac (json.merge request) is_signed in
      let (same, holds) =
        answer_merge-holds c j backend key codec mac json keyed sent.now signed reply sent.sender
          sent.after request (c.base64_encode nonce) body id opened sent.answered counted in
      rw same (
        sent.member,
        Covers-trans (held (later sent.sender.replica_id) path) (held sent.after.inner.map path)
            update (sent.keeps.at path) holds,
      )

  pub spread_inv :
      (net : Net) (nonce : Bytes) (path : Str) (update view view' : ClusterCounters)
      (s s' : Counters)
      → spread c j backend net nonce path update view s ≡ (s', ok view')
      → (signed : Signed) × (sign c key merge_domain (j.merge_to (merge_body nonce path update))
          ≡ ok signed)
        × (s.replicas / 2 + 1
            ≤ length (
                tagged c j backend key
                  (c.base64_encode nonce)
                  (s.replica_id ∷ [])
                  (replies_to c j backend net merge_path signed s.peers))
              + 1)
  unfolding spread finish_write
  spread_inv net nonce path update view view' s s' h =
      elim (Result-cases (sign c key merge_domain (j.merge_to (merge_body nonce path update)))) [
        | inl (signed, e) ↦
            let ps =
              tagged c j backend key (c.base64_encode nonce) (s.replica_id ∷ [])
                (replies_to c j backend net merge_path signed s.peers) in
            (
              signed,
              e,
              ground (
                arith,
                keyed,
                round_ok c j backend key keyed net merge_path (c.base64_encode nonce) signed s,
                length-answers ps,
              ),
            )
        | inr (e, failed) ↦ absurd (ground (arith, keyed))
      ]

  -- The replies to a write's round are genuine, whatever message it sent.
  abbrev pub GenuineWrite : Net → Bytes → Str → ClusterCounters → Type 0
  GenuineWrite net nonce path update =
      (peers : List Str) (signed : Signed)
      → sign c key merge_domain (j.merge_to (merge_body nonce path update)) ≡ ok signed
      → IsGenuine c j backend key MergeSent (c.base64_encode nonce) signed
          (replies_to c j backend net merge_path signed peers)

  pub spread-Quorum :
      (net : Net) (nonce : Bytes) (path : Str) (update view view' : ClusterCounters)
      (s s' : Counters)
      → spread c j backend net nonce path update view s ≡ (s', ok view')
      → s.replicas ≡ count
      → mem s.replica_id members ≡ true
      → Covers (held (later s.replica_id) path) update
      → GenuineWrite net nonce path update
      → Quorum members count (λ id. Covers (held (later id) path) update)
  spread-Quorum net nonce path update view view' s s' h counted member own genuine =
      let (signed, e, size) = spread_inv net nonce path update view view' s s' h in
      let replies = replies_to c j backend net merge_path signed s.peers in
      let ps = tagged c j backend key (c.base64_encode nonce) (s.replica_id ∷ []) replies in
      quorum_of members count (λ id. Covers (held (later id) path) update) s.replica_id ps member
        own (tagged-Distinct c j backend key (c.base64_encode nonce) (s.replica_id ∷ []) replies)
        (unseen s.replica_id [] ps
          (tagged-Fresh c j backend key (c.base64_encode nonce) (s.replica_id ∷ []) replies))
        (tagged-All c j backend key (c.base64_encode nonce)
          (λ id a. (mem id members ≡ true) × Covers (held (later id) path) update)
          (s.replica_id ∷ []) replies
          (All-mono _ _ replies
            (λ reply sent body id counts.
              merge_sent nonce path update signed reply body id e counts (sent body id counts))
            (genuine s.peers signed e)))
        (omega arith)

module _ (c : Crypto) (j : CounterJson) (backend : TdxBackend) where
  pub write_inv :
      (read_net net : Net) (read_nonce nonce : Bytes) (path : Str) (update view : ClusterCounters)
      (w w' : Counters)
      → IsQuiet read_net
      → write c j backend read_net net read_nonce nonce path update w ≡ (w', ok view)
      → (w1 : Counters) × (merged : ClusterCounters) × Extends w w1
        × ((merge_own path update w1).1 ≡ ok merged)
        × (((w1.replicas ≡ 1) × (w' ≡ (merge_own path update w1).0))
            ⊎ (spread c j backend net nonce path update merged (merge_own path update w1).0
                ≡ (w', ok view)))
  unfolding write
  write_inv read_net net read_nonce nonce path update view w w' quiet h =
      let first = read c j backend read_net read_nonce path w in
      elim (Bool-cases w.inner.formed) [
        | inl formed ↦ elim (Result-cases (merge_own path update w).1) [
          | inl (merged, e) ↦ elim (Bool-cases (w.replicas == 1)) [
            | inl one ↦ (w, merged, Extends-refl w, e, inl (ground arith, ground arith))
            | inr many ↦ (w, merged, Extends-refl w, e, inr (ground arith))
          ]
          | inr (x, e) ↦ absurd (ground arith)
        ]
        | inr unformed ↦ elim (Result-cases first.1) [
          | inl (v, done) ↦ elim (Result-cases (merge_own path update first.0).1) [
            | inl (merged, e) ↦
                let reads = (read-Keeps c j backend read_net read_nonce path quiet).at w in
                elim (Bool-cases (first.0.replicas == 1)) [
                  | inl one ↦ (first.0, merged, reads, e, inl (ground arith, ground arith))
                  | inr many ↦ (first.0, merged, reads, e, inr (ground arith))
                ]
            | inr (x, e) ↦ absurd (ground arith)
          ]
          | inr (x, failed) ↦ absurd (ground arith)
        ]
      ]
