-- ===== src/Counters/Replica.antt =====
-- mero-kms/src/counters.rs, `Counters`: the messages between replicas, how a replica answers
-- them, and the reads, writes and syncs it makes over a majority.
-- Instants and durations are nanoseconds. JSON (serde_json) and the other replicas are arguments.
use mero_tee.Prelude.{
  ℕ, ◌+◌, ◌-◌, ◌*◌, ◌/◌, max, String, Bool, true, false, not, ◌&&◌, ◌||◌, Option, none, some, List,
  [], ◌∷◌, ◌++◌, leb, ltb, ◌==◌, if◌then◌else◌, length, any, list_eq,
}
use mathlib.Core.Option
use mero_tee.Text.{Str, Bytes, lit, as_bytes, show_nat, trim_end_slashes}
use mero_tee.Errors.{
  Result, Service, ServiceError, ok, err, map_err, ensure, key_derivation_failed, invalid_base64,
  invalid_mac, invalid_attestation_request, counters_unavailable, counter_limit,
}
use mero_tee.Errors
use mero_tee.Exec.{Exec, pure, lift, gets, modify, ◌>>=◌, ◌>>◌}
use mero_tee.Map.{get}
use mero_tee.Map.Order.{list_ord, nat_ord}
use mero_tee.Crypto.{Crypto}
use mero_tee.Backend.{TdxBackend, counters_key}
use mero_tee.Counters.{ClusterCounters, CounterMap, merge_cluster}

unfoldable pub read_domain : Bytes
read_domain = lit "mero-kms/counters/read/v1"

unfoldable pub merge_domain : Bytes
merge_domain = lit "mero-kms/counters/merge/v1"

unfoldable pub answer_domain : Bytes
answer_domain = lit "mero-kms/counters/answer/v1"

abbrev pub nanos_per_sec : ℕ
nanos_per_sec = 1000000000

abbrev pub genesis_window : ℕ
genesis_window = 600 * nanos_per_sec

abbrev pub max_counter_answer_bytes : ℕ
max_counter_answer_bytes = 67108864

pub record Inner : Type 0 where
  pub map : CounterMap
  pub ready : Bool
  pub formed : Bool
  pub genesis_until : Option ℕ

-- `Inner::genesis_left`, at the instant `now`: none when over or when nothing is left.
nonzero_until : ℕ → Option ℕ → Option ℕ
nonzero_until now none = none
nonzero_until now (some until) = if ltb now until then some (until - now) else none

unfoldable pub genesis_left : Inner → ℕ → Option ℕ
unfolding nonzero_until
genesis_left i now = if i.formed || not i.ready then none else nonzero_until now i.genesis_until

unfoldable pub learn_formed : Inner → Inner
learn_formed i = if not i.formed then record i { formed = true; genesis_until = none } else i

pub record Counters : Type 0 where
  pub replica_id : Bytes
  pub replicas : ℕ
  pub peers : List Str
  pub inner : Inner

unfoldable pub new : Bytes → ℕ → List Str → Counters
new replica_id replicas peers = record {
  replica_id = replica_id;
  replicas = max replicas 1;
  peers = peers;
  inner = record { map = []; ready = false; formed = false; genesis_until = none };
}

unfoldable pub bootstrap : Counters → ℕ → Counters
unfolding learn_formed
bootstrap self now =
    let started = record (self.inner) {
      ready = true;
      genesis_until = some (now + genesis_window);
    } in
    record self { inner = if self.replicas == 1 then learn_formed started else started }

abbrev pub majority : Counters → ℕ
majority self = self.replicas / 2 + 1

pub record Signed : Type 0 where
  pub body : Str
  pub mac_b64 : Str

pub record ReadBody : Type 0 where
  pub nonce_b64 : Str
  pub key_path : Option Str
  pub formed : Bool

pub record MergeBody : Type 0 where
  pub nonce_b64 : Str
  pub key_path : Str
  pub counters : ClusterCounters

pub record AnswerBody : Type 0 where
  pub nonce_b64 : Str
  pub replica_id_b64 : Str
  pub ready : Bool
  pub formed : Bool
  pub genesis_secs : Option ℕ
  pub counters : CounterMap

-- serde_json at the four message types.
pub record CounterJson : Type 0 where
  pub read_to : ReadBody → Result Str Str
  pub read_from : Str → Result Str ReadBody
  pub merge_to : MergeBody → Result Str Str
  pub merge_from : Str → Result Str MergeBody
  pub answer_to : AnswerBody → Result Str Str
  pub answer_from : Str → Result Str AnswerBody
  pub signed_from : Bytes → Option Signed

-- An HTTP response as the caller sees it: whether the status is a success, and the body.
pub record HttpResponse : Type 0 where
  pub is_success : Bool
  pub bytes : Bytes

-- What one round of calls meets: each peer's response to a URL and a message (`none` where the
-- call or its task fails), and what the replica's other requests do to its state meanwhile.
pub record Net : Type 0 where
  pub ask : Str → Signed → Option HttpResponse
  pub meanwhile : Inner → Inner

-- A peer's verified answer.
pub record Answer : Type 0 where
  pub ready : Bool
  pub formed : Bool
  pub genesis_secs : Option ℕ
  pub counters : CounterMap

abbrev pub answer_of : AnswerBody → Answer
answer_of body = record {
  ready = body.ready;
  formed = body.formed;
  genesis_secs = body.genesis_secs;
  counters = body.counters;
}

abbrev pub not_synced : ServiceError
not_synced = counters_unavailable (lit "this replica has not synced its counters yet")

unfoldable pub not_formed : ℕ → ℕ → ServiceError
not_formed heard replicas = counters_unavailable (
    lit "the counters are not formed yet: "
    ++ show_nat heard
    ++ lit " of "
    ++ show_nat replicas
    ++ lit " replicas ready")

unfoldable pub too_few : ℕ → ℕ → String → ℕ → ServiceError
too_few heard replicas what needed =
    counters_unavailable
      (show_nat heard ++ lit " of " ++ show_nat replicas ++ lit what ++ show_nat needed)

module _ (c : Crypto) where
  -- `sign`, of a body that serde_json has written.
  unfoldable pub sign : Bytes → Bytes → Result Str Str → Service Signed
  sign key domain (err e) = err (key_derivation_failed (lit "counter message: " ++ e))
  sign key domain (ok body) =
      ok (record { body = body; mac_b64 = c.base64_encode (c.hmac key (domain ++ as_bytes body)) })

  -- `open`, with the reader of the body's type.
  unfoldable pub open_signed :
      {T : Type 0} → Bytes → Bytes → (Str → Result Str T) → Signed → Service T
  open_signed key domain from_str signed =
      Errors.◌>>=◌ (map_err invalid_base64 (c.base64_decode signed.mac_b64)) λ tag.
        Errors.◌>>=◌
          (ensure (c.hmac_verify key (domain ++ as_bytes signed.body) tag)
            (invalid_mac (lit "counter message")))
          λ _.
            map_err (λ e. invalid_attestation_request (lit "counter message: " ++ e))
              (from_str signed.body)

  unfoldable pub answer_body : Counters → ℕ → Str → CounterMap → AnswerBody
  unfolding genesis_left
  answer_body self now nonce_b64 counters = record {
    nonce_b64 = nonce_b64;
    replica_id_b64 = c.base64_encode self.replica_id;
    ready = self.inner.ready;
    formed = self.inner.formed;
    genesis_secs = Option.map (λ left. max (left / nanos_per_sec) 1) (genesis_left self.inner now);
    counters = counters;
  }

-- One cluster's entry as a map of its own, or the whole map.
unfoldable pub asked_counters : CounterMap → Option Str → CounterMap
asked_counters m none = m
asked_counters m (some path) = elim (get m path) [ none ↦ [] | some cc ↦ (path, cc) ∷ [] ]

abbrev pub set_inner : (Inner → Inner) → Exec Counters (Unit {0})
set_inner f = modify (λ s. record s { inner = f s.inner })

unfoldable pub require_ready : Exec Counters (Unit {0})
require_ready s = (s, ensure s.inner.ready not_synced)

-- `merge_cluster(&mut self.lock().map, ..)?`
unfoldable pub merge_own : Str → ClusterCounters → Exec Counters ClusterCounters
merge_own path counters self = (
  record self {
    inner = record (self.inner) { map = (merge_cluster self.inner.map path counters).0 };
  },
  (merge_cluster self.inner.map path counters).1,
)

module _ (c : Crypto) (j : CounterJson) (backend : TdxBackend) where
  -- Answers a peer's read.
  unfoldable pub answer_read : ℕ → Signed → Exec Counters Signed
  unfolding learn_formed asked_counters
  answer_read now signed = do
    key ← lift (counters_key c backend)
    body ← lift (open_signed c key read_domain j.read_from signed)
    set_inner (λ i. if body.formed then learn_formed i else i)
    counters ← gets (λ s. asked_counters s.inner.map body.key_path)
    answer ← gets (λ s. answer_body c s now body.nonce_b64 counters)
    lift (sign c key answer_domain (j.answer_to answer))

  -- Merges a peer's write and answers with what is then held.
  unfoldable pub answer_merge : ℕ → Signed → Exec Counters Signed
  unfolding learn_formed merge_own
  answer_merge now signed = do
    key ← lift (counters_key c backend)
    body ← lift (open_signed c key merge_domain j.merge_from signed)
    set_inner learn_formed
    merged ← merge_own body.key_path body.counters
    answer ← gets (λ s. answer_body c s now body.nonce_b64 ((body.key_path, merged) ∷ []))
    lift (sign c key answer_domain (j.answer_to answer))

  -- What a call to one peer yields: a message, if the response is a success within the size.
  unfoldable pub reply_of : Option HttpResponse → Option Signed
  reply_of none = none
  reply_of (some r) =
      if r.is_success && leb (length r.bytes) max_counter_answer_bytes
      then j.signed_from r.bytes
      else none

  -- The loop of `round` over the replies: one answer for each replica id that is not yet seen.
  accept : List Bytes → AnswerBody → Bytes → (List Bytes → List Answer) → List Answer
  accept seen body replica_id more =
      if any (list_eq replica_id) seen then more seen else answer_of body ∷ more (replica_id ∷ seen)

  -- `<[u8; 16]>::try_from` of a base64 text.
  unfoldable pub decode_id : Str → Option Bytes
  decode_id text = elim (c.base64_decode text) [
    | err e ↦ none
    | ok id ↦ if length id == 16 then some id else none
  ]

  -- A reply that counts: its MAC checks out, it answers this request, and it names a replica.
  unfoldable pub usable : Bytes → Str → Signed → Option (AnswerBody × Bytes)
  unfolding decode_id
  usable key nonce_b64 reply = elim (open_signed c key answer_domain j.answer_from reply) [
    | err e ↦ none
    | ok body ↦
        if list_eq body.nonce_b64 nonce_b64
        then Option.map (λ id. (body, id)) (decode_id body.replica_id_b64)
        else none
  ]

  unfoldable pub collect : Bytes → Str → List Bytes → List Signed → List Answer
  unfolding accept
  collect key nonce_b64 seen [] = []
  collect key nonce_b64 seen (reply ∷ replies) = elim (usable key nonce_b64 reply) [
    | none ↦ collect key nonce_b64 seen replies
    | some (body, id) ↦ accept seen body id (λ s. collect key nonce_b64 s replies)
  ]

  -- `replies.into_iter().flatten()`
  unfoldable pub replies_to : Net → Str → Signed → List Str → List Signed
  unfolding reply_of trim_end_slashes
  replies_to net path signed [] = []
  replies_to net path signed (peer ∷ peers) =
      let rest = replies_to net path signed peers in
      elim (reply_of (net.ask (trim_end_slashes peer ++ b'/' ∷ path) signed)) [
        | none ↦ rest
        | some reply ↦ reply ∷ rest
      ]

  unfoldable pub round : Net → Str → Str → Signed → Exec Counters (List Answer)
  unfolding collect replies_to
  round net path nonce_b64 signed = do
    key ← lift (counters_key c backend)
    replies ← gets (λ s. replies_to net path signed s.peers)
    set_inner net.meanwhile
    gets (λ s. collect key nonce_b64 (s.replica_id ∷ []) replies)

  -- The nonce is the 32 random bytes that the caller drew.
  unfoldable pub read_request : Option Str → Bytes → Exec Counters (Str × Signed)
  read_request key_path nonce = do
    formed ← gets (λ s. s.inner.formed)
    let body : ReadBody = record {
      nonce_b64 = c.base64_encode nonce;
      key_path = key_path;
      formed = formed;
    }
    key ← lift (counters_key c backend)
    signed ← lift (sign c key read_domain (j.read_to body))
    pure (c.base64_encode nonce, signed)
