-- ===== src/Counters/Rounds.antt =====
-- mero-kms/src/counters.rs: the rounds of messages to the peers, and the replies that count
-- in them.
pub mod Writes
pub mod Reads
use mero_tee.Prelude.{
  ℕ, ◌+◌, ◌/◌, ◌≤◌, ◌≡◌, refl, ap, Bool, true, false, some, List, [], ◌∷◌, length, ◌==◌, arith, ◌⊎◌,
  inl, inr, Bool-cases, All, map,
}
use mero_tee.Text.{Str, Bytes}
use mero_tee.Errors.{ok, Result-cases}
use mero_tee.Map.Order.{list_ord, nat_ord}
use mero_tee.Crypto.{Crypto, CodecLaws, MacLaws}
use mero_tee.Backend.{TdxBackend, counters_key}
use mero_tee.Counters.{ClusterCounters, CounterMap}
use mero_tee.Counters.Replica.{
  Counters, CounterJson, Net, Answer, AnswerBody, ReadBody, MergeBody, Signed, usable, sign,
  read_domain, merge_domain, answer_read, answer_merge, replies_to, round, merge_own, read_request,
}
use mero_tee.Counters.Ops.{
  read, write, gather, spread, finish_read, finish_write, merge_answers, ready_answers, read_path,
  merge_path,
}
use mero_tee.Counters.Growth.{Covers, Covers-trans, Grows, held}
use mero_tee.Counters.Answers.{
  JsonLaws, open_signed-sign, tagged, collect-tagged, tagged-Fresh, tagged-All, tagged-Distinct,
  ids_of, unseen,
}
use mero_tee.Counters.Quorum.{mem, Distinct, Quorum}
use mero_tee.Counters.Genuine.{answer_merge-holds, answer_read-sends}
use mero_tee.Counters.Steps.{IsQuiet, Extends, Extends-refl, read-Keeps}
use mero_tee.Counters.Ready.{
  merge_answers-Covers, ready_tagged, ready_answers-map, All-ready, mem-ready, Distinct-ready,
  All-ids, All-answers, length-ids, length-answers, All-map2, All-mono,
}

module _ (members : List Bytes) (count : ℕ) where
  -- The members of which `P` holds: the caller, and every replica whose answer counts.
  pub quorum_of :
      (P : Bytes → Type 0) (own : Bytes) (ps : List (Bytes × Answer))
      → mem own members ≡ true
      → P own
      → Distinct (ids_of ps)
      → mem own (ids_of ps) ≡ false
      → All (λ p. (mem p.0 members ≡ true) × P p.0) ps
      → count / 2 + 1 ≤ length ps + 1
      → Quorum members count P
  quorum_of P own ps member holds distinct fresh all_hold size = record {
    ids = own ∷ ids_of ps;
    distinct = (fresh, distinct);
    within = (
      member,
      All-ids (λ id. mem id members ≡ true) ps
          (All-map2 _ _ (λ p. mem p.0 members ≡ true) ps (λ p h _. h.0) all_hold all_hold),
    );
    size = omega (arith, length-ids ps);
    each = (holds, All-ids P ps (All-map2 _ _ (λ p. P p.0) ps (λ p h _. h.1) all_hold all_hold));
  }

  pub alone-Quorum :
      (P : Bytes → Type 0) (id : Bytes)
      → count ≡ 1
      → mem id members ≡ true
      → P id
      → Quorum members count P
  alone-Quorum P id one member holds = record {
    ids = id ∷ [];
    distinct = (refl, tt);
    within = (member, tt);
    size = omega arith;
    each = (holds, tt);
  }

module _ (c : Crypto) (j : CounterJson) (backend : TdxBackend) (key : Bytes) where
  -- Every reply whose MAC checks out under the cluster's key, to this very request, was sent by
  -- a member of the cluster: nobody else holds the key.
  abbrev pub IsGenuine : (Signed → Signed → Type 0) → Str → Signed → List Signed → Type 0
  IsGenuine Sent nonce_b64 signed replies =
      All
        (λ reply.
          (body : AnswerBody) (id : Bytes)
          → usable c j backend key nonce_b64 reply ≡ some (body, id)
          → Sent signed reply)
        replies

module _ (c : Crypto) (j : CounterJson) (backend : TdxBackend) (key : Bytes)
    (keyed : counters_key c backend ≡ ok key) where
  pub round_ok :
      (net : Net) (path nonce_b64 : Str) (signed : Signed) (s : Counters)
      → round c j backend net path nonce_b64 signed s ≡ (
        record s { inner = net.meanwhile s.inner },
        ok (
            map
              (λ p. p.1)
              (tagged c j backend key nonce_b64
                (s.replica_id ∷ [])
                (replies_to c j backend net path signed s.peers))),
      )
  unfolding round
  round_ok net path nonce_b64 signed s = ground (
    arith,
    keyed,
    collect-tagged c j backend key nonce_b64 (s.replica_id ∷ [])
        (replies_to c j backend net path signed s.peers),
  )
