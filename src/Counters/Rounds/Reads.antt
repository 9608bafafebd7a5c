-- ===== src/Counters/Rounds/Reads.antt =====
-- mero-kms/src/counters.rs: a read that returned has met the views of a majority.
use mero_tee.Prelude.{
  ℕ, ◌+◌, ◌/◌, ◌≤◌, ◌≡◌, refl, ap, Bool, true, some, List, [], ◌∷◌, length, arith, inl, inr, map,
}
use mero_tee.Text.{Str, Bytes}
use mero_tee.Errors.{ok, Result-cases}
use mero_tee.Map.Order.{list_ord, nat_ord}
use mero_tee.Crypto.{Crypto, CodecLaws, MacLaws}
use mero_tee.Backend.{TdxBackend, counters_key}
use mero_tee.Counters.{ClusterCounters, CounterMap}
use mero_tee.Counters.Replica.{
  Counters, CounterJson, Net, Answer, AnswerBody, ReadBody, Signed, usable, sign, read_domain,
  answer_read, replies_to, read_request,
}
use mero_tee.Counters.Ops.{gather, finish_read, merge_answers, ready_answers, read_path}
use mero_tee.Counters.Growth.{Covers, Covers-trans, Grows, held}
use mero_tee.Counters.Answers.{
  JsonLaws, open_signed-sign, tagged, tagged-Fresh, tagged-All, tagged-Distinct, unseen,
}
use mero_tee.Counters.Quorum.{mem, Quorum}
use mero_tee.Counters.Genuine.{answer_read-sends}
use mero_tee.Counters.Ready.{
  merge_answers-Covers, ready_tagged, ready_answers-map, All-ready, mem-ready, Distinct-ready,
  All-answers, length-answers, All-map2, All-mono,
}
use mero_tee.Counters.Rounds.{IsGenuine, quorum_of, round_ok}

module _ (c : Crypto) (j : CounterJson) (backend : TdxBackend) (key : Bytes) (codec : CodecLaws c)
    (mac : MacLaws c) (json : JsonLaws j) (keyed : counters_key c backend ≡ ok key)
    (members : List Bytes) (count : ℕ) (later : Bytes → CounterMap) where
  -- The reply to a read was sent by a member, which by then held all that it holds `later`.
  pub record ReadSent (signed reply : Signed) : Type 0 where
    pub now : ℕ
    pub sender : Counters
    pub after : Counters
    pub answered : answer_read c j backend now signed sender ≡ (after, ok reply)
    pub member : mem sender.replica_id members ≡ true
    pub keeps : Grows (later sender.replica_id) sender.inner.map

  abbrev pub read_body : Bytes → Str → Bool → ReadBody
  read_body nonce path formed = record {
    nonce_b64 = c.base64_encode nonce;
    key_path = some path;
    formed = formed;
  }

  pub finish_read_inv :
      (path : Str) (view view' : ClusterCounters) (answers : List Answer) (s s' : Counters)
      → finish_read c j backend path view answers s ≡ (s', ok view')
      → (s.replicas / 2 + 1 ≤ length (ready_answers answers) + 1)
        × (merge_answers path view (ready_answers answers) ≡ ok view')
  unfolding finish_read
  finish_read_inv path view view' answers s s' h =
      elim (Result-cases (merge_answers path view (ready_answers answers))) [
        | inl (merged, e) ↦ (ground arith, ground arith)
        | inr (x, e) ↦ absurd (ground arith)
      ]

  -- What a member that counts in a read's round proves.
  pub read_sent :
      (nonce : Bytes) (path : Str) (formed : Bool) (signed reply : Signed) (body : AnswerBody)
      (id : Bytes)
      → sign c key read_domain (j.read_to (read_body nonce path formed)) ≡ ok signed
      → usable c j backend key (c.base64_encode nonce) reply ≡ some (body, id)
      → ReadSent signed reply
      → (mem id members ≡ true) × Covers (held body.counters path) (held (later id) path)
  read_sent nonce path formed signed reply body id is_signed counted sent =
      let request = read_body nonce path formed in
      let opened =
        open_signed-sign c key read_domain request (j.read_to request) j.read_from signed codec mac
          (json.read request) is_signed in
      let (same, sends) =
        answer_read-sends c j backend key codec mac json keyed sent.now signed reply sent.sender
          sent.after request (c.base64_encode nonce) path body id opened refl sent.answered
          counted in
      rw (same, sends) (sent.member, sent.keeps.at path)

  pub gather_inv :
      (net : Net) (nonce : Bytes) (path : Str) (view view' : ClusterCounters) (s s' : Counters)
      → gather c j backend net nonce path view s ≡ (s', ok view')
      → (signed : Signed) × (sign c key read_domain
            (j.read_to (read_body nonce path s.inner.formed))
          ≡ ok signed)
        × (s.replicas / 2 + 1
            ≤ length (
                ready_answers (
                  map
                    (λ p. p.1)
                    (tagged c j backend key
                      (c.base64_encode nonce)
                      (s.replica_id ∷ [])
                      (replies_to c j backend net read_path signed s.peers))))
              + 1)
        × (merge_answers path view (
              ready_answers (
                map
                  (λ p. p.1)
                  (tagged c j backend key
                    (c.base64_encode nonce)
                    (s.replica_id ∷ [])
                    (replies_to c j backend net read_path signed s.peers))))
            ≡ ok view')
  unfolding gather read_request
  gather_inv net nonce path view view' s s' h =
      elim (Result-cases
        (sign c key read_domain (j.read_to (read_body nonce path s.inner.formed)))) [
          | inl (signed, e) ↦
              let ps =
                tagged c j backend key (c.base64_encode nonce) (s.replica_id ∷ [])
                  (replies_to c j backend net read_path signed s.peers) in
              let h' : finish_read c j backend path view (map (λ p. p.1) ps)
                    (record s { inner = net.meanwhile s.inner })
                  ≡ (s', ok view') =
                ground (
                  arith,
                  keyed,
                  round_ok c j backend key keyed net read_path (c.base64_encode nonce) signed s,
                ) in
              let (size, merged) =
                finish_read_inv path view view' (map (λ p. p.1) ps)
                  (record s { inner = net.meanwhile s.inner }) s' h' in
              (signed, e, size, merged)
          | inr (e, failed) ↦ absurd (ground (arith, keyed))
        ]

  -- The replies to a read's round are genuine, whatever message it sent.
  abbrev pub GenuineRead : Net → Bytes → Str → Type 0
  GenuineRead net nonce path =
      (peers : List Str) (formed : Bool) (signed : Signed)
      → sign c key read_domain (j.read_to (read_body nonce path formed)) ≡ ok signed
      → IsGenuine c j backend key ReadSent (c.base64_encode nonce) signed
          (replies_to c j backend net read_path signed peers)

  pub gather-Quorum :
      (net : Net) (nonce : Bytes) (path : Str) (view view' : ClusterCounters) (s s' : Counters)
      → gather c j backend net nonce path view s ≡ (s', ok view')
      → s.replicas ≡ count
      → mem s.replica_id members ≡ true
      → Covers view (held (later s.replica_id) path)
      → GenuineRead net nonce path
      → Quorum members count (λ id. Covers view' (held (later id) path))
  gather-Quorum net nonce path view view' s s' h counted member own genuine =
      let (signed, e, size, merged) = gather_inv net nonce path view view' s s' h in
      let replies = replies_to c j backend net read_path signed s.peers in
      let ps = tagged c j backend key (c.base64_encode nonce) (s.replica_id ∷ []) replies in
      let answers_are = ready_answers-map ps in
      let (kept, took) =
        merge_answers-Covers path view (map (λ p. p.1) (ready_tagged ps)) view'
          (rw answers_are at merged) in
      let fresh =
        unseen s.replica_id [] ps
          (tagged-Fresh c j backend key (c.base64_encode nonce) (s.replica_id ∷ []) replies) in
      let sent =
        tagged-All c j backend key (c.base64_encode nonce)
          (λ id a. (mem id members ≡ true) × Covers (held a.counters path) (held (later id) path))
          (s.replica_id ∷ []) replies
          (All-mono _ _ replies
            (λ reply sent body id counts.
              read_sent nonce path s.inner.formed signed reply body id e counts
                (sent body id counts))
            (genuine s.peers s.inner.formed signed e)) in
      quorum_of members count (λ id. Covers view' (held (later id) path)) s.replica_id
        (ready_tagged ps) member (Covers-trans view' view (held (later s.replica_id) path) kept own)
        (Distinct-ready ps
          (tagged-Distinct c j backend key (c.base64_encode nonce) (s.replica_id ∷ []) replies))
        (mem-ready s.replica_id ps fresh)
        (All-map2
          (λ p. (mem p.0 members ≡ true) × Covers (held p.1.counters path) (held (later p.0) path))
          (λ p. Covers view' (held p.1.counters path))
          (λ p. (mem p.0 members ≡ true) × Covers view' (held (later p.0) path)) (ready_tagged ps)
          (λ p h k.
            (h.0, Covers-trans view' (held p.1.counters path) (held (later p.0) path) k h.1))
          (All-ready _ ps sent)
          (All-answers (λ a. Covers view' (held a.counters path)) (ready_tagged ps) took))
        (omega (arith, ap length answers_are, length-answers (ready_tagged ps)))
