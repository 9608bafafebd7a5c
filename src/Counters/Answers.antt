-- ===== src/Counters/Answers.antt =====
-- mero-kms/src/counters.rs, `Counters::round`: the answers that are collected are of distinct
-- replicas, and each is what its replica sent.
use mero_tee.Prelude.{
  ◌≡◌, refl, ap, inl, inr, false, none, some, List, [], ◌∷◌, ◌++◌, map, any, All, list_eq,
  Bool-cases, Option-cases, if◌then◌else◌, arith,
}
use mero_tee.Text.{Str, Bytes, as_bytes}
use mero_tee.Errors.{Result, ok, err}
use mero_tee.Crypto.{Crypto, CodecLaws, MacLaws}
use mero_tee.Backend.{TdxBackend}
use mero_tee.Counters.Replica.{
  CounterJson, Answer, AnswerBody, ReadBody, MergeBody, Signed, answer_of, collect, usable, sign,
  open_signed,
}
use mero_tee.Counters.Quorum.{mem, Distinct, list_eq_comm_false}

-- serde_json reads back what it wrote.
pub record JsonLaws (j : CounterJson) : Type 0 where
  pub read : (b : ReadBody) (t : Str) → j.read_to b ≡ ok t → j.read_from t ≡ ok b
  pub merge : (b : MergeBody) (t : Str) → j.merge_to b ≡ ok t → j.merge_from t ≡ ok b
  pub answer : (b : AnswerBody) (t : Str) → j.answer_to b ≡ ok t → j.answer_from t ≡ ok b

-- A message that was signed opens, under the same key and domain, to what was written.
pub open_signed-sign :
    (c : Crypto) {T : Type 0} (key domain : Bytes) (x : T) (to : Result Str Str)
    (from : Str → Result Str T) (signed : Signed)
    → CodecLaws c
    → MacLaws c
    → ((t : Str) → to ≡ ok t → from t ≡ ok x)
    → sign c key domain to ≡ ok signed
    → open_signed c key domain from signed ≡ ok x
unfolding sign open_signed
open_signed-sign c key domain x (err e) from signed codec mac back h = cc
open_signed-sign c key domain x (ok text) from signed codec mac back h = ground (
  arith,
  codec.base64 (c.hmac key (domain ++ as_bytes text)),
  (mac.verify key (domain ++ as_bytes text) (c.hmac key (domain ++ as_bytes text))).1 refl,
  back text refl,
)

fresher :
    (id : Bytes) (seen : List Bytes) (ps : List (Bytes × Answer))
    → All (λ p. mem p.0 (id ∷ seen) ≡ false) ps
    → All (λ p. mem p.0 seen ≡ false) ps
fresher id seen [] h = tt
fresher id seen (p ∷ ps) h = (ground (arith, h.0), fresher id seen ps h.1)

abbrev pub ids_of : List (Bytes × Answer) → List Bytes
ids_of ps = map (λ p. p.0) ps

pub unseen :
    (id : Bytes) (seen : List Bytes) (ps : List (Bytes × Answer))
    → All (λ p. mem p.0 (id ∷ seen) ≡ false) ps
    → mem id (ids_of ps) ≡ false
unseen id seen [] h = refl
unseen id seen (p ∷ ps) h = ground (arith, list_eq_comm_false p.0 id, h.0, unseen id seen ps h.1)

module _ (c : Crypto) (j : CounterJson) (backend : TdxBackend) (key : Bytes) (nonce_b64 : Str) where
  -- The answers, each with the id of its replica.
  unfoldable pub tagged : List Bytes → List Signed → List (Bytes × Answer)
  tagged seen [] = []
  tagged seen (reply ∷ replies) = elim (usable c j backend key nonce_b64 reply) [
    | none ↦ tagged seen replies
    | some (body, id) ↦
        if any (list_eq id) seen
        then tagged seen replies
        else (id, answer_of body) ∷ tagged (id ∷ seen) replies
  ]

  pub collect-tagged :
      (seen : List Bytes) (replies : List Signed)
      → collect c j backend key nonce_b64 seen replies ≡ map (λ p. p.1) (tagged seen replies)
  unfolding collect tagged
  collect-tagged seen [] = refl
  collect-tagged seen (reply ∷ replies) =
      elim (Option-cases (usable c j backend key nonce_b64 reply)) [
        | inl none_of ↦ rw (none_of, collect, tagged) (collect-tagged seen replies)
        | inr ((body, id), found) ↦ elim (Bool-cases (any (list_eq id) seen)) [
          | inl old ↦
              rw (found, collect, tagged) (rw (old, collect, tagged) (collect-tagged seen replies))
          | inr new ↦
              rw (found, collect, tagged)
                (rw (new, collect, tagged)
                  (ap (◌∷◌ (answer_of body)) (collect-tagged (id ∷ seen) replies)))
        ]
      ]

  pub tagged-Fresh :
      (seen : List Bytes) (replies : List Signed)
      → All (λ p. mem p.0 seen ≡ false) (tagged seen replies)
  unfolding tagged
  tagged-Fresh seen [] = tt
  tagged-Fresh seen (reply ∷ replies) =
      elim (Option-cases (usable c j backend key nonce_b64 reply)) [
        | inl none_of ↦ rw (none_of, tagged) (tagged-Fresh seen replies)
        | inr ((body, id), found) ↦ elim (Bool-cases (any (list_eq id) seen)) [
          | inl old ↦ rw (found, tagged) (rw (old, tagged) (tagged-Fresh seen replies))
          | inr new ↦
              rw (found, tagged)
                (rw (new, tagged)
                  (
                    new,
                    fresher id seen (tagged (id ∷ seen) replies) (tagged-Fresh (id ∷ seen) replies),
                  ))
        ]
      ]

  -- What holds of each reply that counts holds of each answer.
  pub tagged-All :
      (P : Bytes → Answer → Type 0) (seen : List Bytes) (replies : List Signed)
      → All
          (λ reply.
            (body : AnswerBody) (id : Bytes)
            → usable c j backend key nonce_b64 reply ≡ some (body, id)
            → P id (answer_of body))
          replies
      → All (λ p. P p.0 p.1) (tagged seen replies)
  unfolding tagged
  tagged-All P seen [] h = tt
  tagged-All P seen (reply ∷ replies) h =
      elim (Option-cases (usable c j backend key nonce_b64 reply)) [
        | inl none_of ↦ rw (none_of, tagged) (tagged-All P seen replies h.1)
        | inr ((body, id), found) ↦ elim (Bool-cases (any (list_eq id) seen)) [
          | inl old ↦ rw (found, tagged) (rw (old, tagged) (tagged-All P seen replies h.1))
          | inr new ↦
              rw (found, tagged)
                (rw (new, tagged) (h.0 body id found, tagged-All P (id ∷ seen) replies h.1))
        ]
      ]

  -- No replica answers twice, and none that was seen before answers at all.
  pub tagged-Distinct :
      (seen : List Bytes) (replies : List Signed) → Distinct (ids_of (tagged seen replies))
  unfolding tagged
  tagged-Distinct seen [] = tt
  tagged-Distinct seen (reply ∷ replies) =
      elim (Option-cases (usable c j backend key nonce_b64 reply)) [
        | inl none_of ↦ rw (none_of, tagged) (tagged-Distinct seen replies)
        | inr ((body, id), found) ↦ elim (Bool-cases (any (list_eq id) seen)) [
          | inl old ↦ rw (found, tagged) (rw (old, tagged) (tagged-Distinct seen replies))
          | inr new ↦
              rw (found, tagged)
                (rw (new, tagged)
                  (
                    unseen id seen (tagged (id ∷ seen) replies) (tagged-Fresh (id ∷ seen) replies),
                    tagged-Distinct (id ∷ seen) replies,
                  ))
        ]
      ]
