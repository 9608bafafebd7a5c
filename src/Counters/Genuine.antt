-- ===== src/Counters/Genuine.antt =====
-- mero-kms/src/counters.rs: what an answer that counts proves about the replica that sent it.
use mero_tee.Prelude.{ℕ, ◌≡◌, refl, ap, ◌∙◌, some, [], ◌∷◌, arith, inl, inr, Option-cases}
use mero_tee.Text.{Str, Bytes}
use mero_tee.Errors.{ok, Result-cases}
use mero_tee.Map.{get}
use mero_tee.Map.Order.{list_ord, nat_ord}
use mero_tee.Crypto.{Crypto, CodecLaws, MacLaws}
use mero_tee.Backend.{TdxBackend, counters_key}
use mero_tee.Counters.{ClusterCounters, CounterMap, merge_cluster}
use mero_tee.Counters.Replica.{
  Counters, CounterJson, AnswerBody, ReadBody, MergeBody, Signed, usable, sign, open_signed,
  answer_domain, read_domain, merge_domain, answer_read, answer_merge, answer_body, asked_counters,
  learn_formed,
}
use mero_tee.Counters.Growth.{Covers, held, held-merge_cluster}
use mero_tee.Counters.Answers.{JsonLaws, open_signed-sign}

held-asked : (m : CounterMap) (path : Str) → held (asked_counters m (some path)) path ≡ held m path
unfolding asked_counters get
held-asked m path = elim (Option-cases (get m path)) [
  | inl missing ↦ ground arith
  | inr (cc, found) ↦ ground (arith, list_ord.eq_refl path)
]

module _ (c : Crypto) (j : CounterJson) (backend : TdxBackend) (key : Bytes) (codec : CodecLaws c)
    (mac : MacLaws c) (json : JsonLaws j) (keyed : counters_key c backend ≡ ok key) where
  -- An answer that counts carries what its sender wrote, and the sender's own id.
  usable_of_opens :
      (nonce_b64 : Str) (reply : Signed) (sent body : AnswerBody) (id replica_id : Bytes)
      → open_signed c key answer_domain j.answer_from reply ≡ ok sent
      → sent.replica_id_b64 ≡ c.base64_encode replica_id
      → usable c j backend key nonce_b64 reply ≡ some (body, id)
      → (body ≡ sent) × (id ≡ replica_id)
  unfolding usable
  usable_of_opens nonce_b64 reply sent body id replica_id opens from h =
      ground (arith, codec.base64 replica_id)

  merge_answered :
      (now : ℕ) (signed reply : Signed) (s s' : Counters) (req : MergeBody)
      → open_signed c key merge_domain j.merge_from signed ≡ ok req
      → answer_merge c j backend now signed s ≡ (s', ok reply)
      → (merged : ClusterCounters) × ((merge_cluster
            (learn_formed s.inner).map
            req.key_path
            req.counters).1
          ≡ ok merged)
        × (s'.inner.map ≡ (merge_cluster (learn_formed s.inner).map req.key_path req.counters).0)
        × (s'.replica_id ≡ s.replica_id)
        × (sign c key answer_domain
              (j.answer_to (answer_body c s' now req.nonce_b64 ((req.key_path, merged) ∷ [])))
            ≡ ok reply)
  unfolding answer_merge
  merge_answered now signed reply s s' req opened answered =
      elim (Result-cases (merge_cluster (learn_formed s.inner).map req.key_path req.counters).1) [
        | inl (merged, done) ↦
            (merged, done, ground (arith, keyed), ground (arith, keyed), ground (arith, keyed))
        | inr (e, failed) ↦ absurd (ground (arith, keyed))
      ]

  -- A replica that answered a write holds it.
  pub answer_merge-holds :
      (now : ℕ) (signed reply : Signed) (s s' : Counters) (req : MergeBody) (nonce_b64 : Str)
      (body : AnswerBody) (id : Bytes)
      → open_signed c key merge_domain j.merge_from signed ≡ ok req
      → answer_merge c j backend now signed s ≡ (s', ok reply)
      → usable c j backend key nonce_b64 reply ≡ some (body, id)
      → (id ≡ s.replica_id) × Covers (held s'.inner.map req.key_path) req.counters
  unfolding answer_merge
  answer_merge-holds now signed reply s s' req nonce_b64 body id opened answered counted =
      let (merged, done, map_is, same, signed_reply) =
        merge_answered now signed reply s s' req opened answered in
      let sent = answer_body c s' now req.nonce_b64 ((req.key_path, merged) ∷ []) in
      let opens =
        open_signed-sign c key answer_domain sent (j.answer_to sent) j.answer_from reply codec mac
          (json.answer sent) signed_reply in
      let (held_is, written, kept) =
        held-merge_cluster (learn_formed s.inner).map req.key_path req.counters merged done in
      (
        (usable_of_opens nonce_b64 reply sent body id s.replica_id opens
            (unfold answer_body in ap c.base64_encode same) counted).1,
        rw (map_is, held_is) written,
      )

  read_answered :
      (now : ℕ) (signed reply : Signed) (s s' : Counters) (req : ReadBody)
      → open_signed c key read_domain j.read_from signed ≡ ok req
      → answer_read c j backend now signed s ≡ (s', ok reply)
      → (s'.inner.map ≡ s.inner.map)
        × (s'.replica_id ≡ s.replica_id)
        × (sign c key answer_domain (
              j.answer_to
                (answer_body c s' now req.nonce_b64 (asked_counters s'.inner.map req.key_path)))
            ≡ ok reply)
  unfolding answer_read
  read_answered now signed reply s s' req opened answered =
      (ground (arith, keyed), ground (arith, keyed), ground (arith, keyed))

  -- A replica that answered a read sent what it held.
  pub answer_read-sends :
      (now : ℕ) (signed reply : Signed) (s s' : Counters) (req : ReadBody) (nonce_b64 path : Str)
      (body : AnswerBody) (id : Bytes)
      → open_signed c key read_domain j.read_from signed ≡ ok req
      → req.key_path ≡ some path
      → answer_read c j backend now signed s ≡ (s', ok reply)
      → usable c j backend key nonce_b64 reply ≡ some (body, id)
      → (id ≡ s.replica_id) × (held body.counters path ≡ held s.inner.map path)
  unfolding answer_read
  answer_read-sends now signed reply s s' req nonce_b64 path body id opened asked answered counted =
      let (map_is, same, signed_reply) = read_answered now signed reply s s' req opened answered in
      let sent = answer_body c s' now req.nonce_b64 (asked_counters s'.inner.map req.key_path) in
      let opens =
        open_signed-sign c key answer_domain sent (j.answer_to sent) j.answer_from reply codec mac
          (json.answer sent) signed_reply in
      let (body_is, id_is) =
        usable_of_opens nonce_b64 reply sent body id s.replica_id opens
          (unfold answer_body in ap c.base64_encode same) counted in
      let counters_is : sent.counters ≡ asked_counters s'.inner.map req.key_path =
        unfold answer_body in refl in
      (
        id_is,
        ap (λ b. held b.counters path) body_is
            ∙ ap (λ m. held m path) counters_is
            ∙ ap (λ k. held (asked_counters s'.inner.map k) path) asked
            ∙ held-asked s'.inner.map path
            ∙ ap (λ m. held m path) map_is,
      )
