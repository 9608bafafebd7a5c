-- ===== src/Cluster/Join.antt =====
-- mero-kms/src/cluster.rs: the two handlers of the giver, and the joiner.
use mero_tee.Prelude.{Bool, true, false, List, [], ◌∷◌, ◌++◌, length, ◌==◌, if◌then◌else◌}
use mero_tee.Text.{Str, Bytes, lit, trim_end_slashes}
use mero_tee.Errors.{
  Service, ServiceError, Result, ok, err, ensure, map_err, invalid_base64,
  invalid_attestation_request, attestation_verification_failed,
}
use mero_tee.Errors
use mero_tee.Exec.{Exec, pure, lift, ◌>>=◌, ◌>>◌}
use mero_tee.Crypto.{Crypto}
use mero_tee.Backend.{
  TdxBackend, Root, AttestationResult, with_root, quote, record_join_refusal, record_join_error,
  set_root,
}
use mero_tee.Attest.{decode_fixed_b64_32}
use mero_tee.Policy.{AttestationPolicy}
use mero_tee.Cluster.{
  Messages, VerifyAttestation, issue, open_nonce, spend, join_binding, give_binding, seal_root,
  open_root, verify_peer,
}
use mero_tee.State.{AppState, Clock, now, with_join_nonces}

pub record JoinRequest : Type 0 where
  pub nonce_b64 : Str
  pub joiner_public_b64 : Str
  pub quote_b64 : Str

pub record JoinResponse : Type 0 where
  pub quote_b64 : Str
  pub giver_public_b64 : Str
  pub seal_nonce_b64 : Str
  pub sealed_root_b64 : Str

-- What one request meets: the clock at the opening and at the spending of the nonce, the random
-- bytes, and the two directions of attestation.
pub record Giving : Type 0 where
  pub opened_at : Clock
  pub spent_at : Clock
  pub giver_secret : Bytes
  pub seal_nonce : Bytes
  pub verify : VerifyAttestation
  pub attest : Bytes → Result Str AttestationResult

-- What the joiner meets at one peer: the body of each answer, or the error's text.
pub record Joining : Type 0 where
  pub joiner_secret : Bytes
  pub fetch_nonce : Str → Result Str Str
  pub fetch_join : Str → JoinRequest → Result Str JoinResponse
  pub verify : VerifyAttestation
  pub attest : Bytes → Result Str AttestationResult

module _ (c : Crypto) (messages : Messages) (show_error : ServiceError → Str) where
  unfoldable pub join_nonce_handler : Clock → Bytes → AppState → Service Str
  join_nonce_handler clock random state =
      Errors.◌>>=◌ (with_root {0} state.backend (λ root. ok tt)) λ _.
        Errors.◌>>=◌ (now clock)
          λ moment. ok (c.base64_encode (issue c state.join_nonces random moment))

  -- A refused peer is recorded before the error is answered.
  unfoldable pub require_peer : Giving → Bytes → Bytes → Bytes → Exec AppState (Unit {0})
  require_peer g quote_bytes nonce binding s =
      let checked =
        verify_peer c messages g.verify s.backend s.config.attestation_policy quote_bytes nonce
          binding in
      elim checked [
        | ok _ ↦ (s, ok tt)
        | err e ↦ (record s { backend = record_join_refusal s.backend (show_error e) }, err e)
      ]

  unfoldable pub join_handler : Giving → JoinRequest → Exec AppState JoinResponse
  unfolding require_peer
  join_handler g request = do
    nonce ← lift (decode_fixed_b64_32 c (lit "nonceB64") request.nonce_b64)
    opened_at ← lift (now g.opened_at)
    expires_at ← (λ s. (s, open_nonce c s.join_nonces nonce opened_at))
    joiner_public ← lift (decode_fixed_b64_32 c (lit "joinerPublicB64") request.joiner_public_b64)
    quote_bytes ← lift (map_err invalid_base64 (c.base64_decode request.quote_b64))
    require_peer g quote_bytes nonce (join_binding c joiner_public)
    spent_at ← lift (now g.spent_at)
    with_join_nonces (λ nonces. spend nonces nonce expires_at spent_at)
    let giver_public = c.mul_base_clamped g.giver_secret
    sealed_root ← (λ s. (
      s,
      with_root s.backend
          (λ root. seal_root c root g.giver_secret joiner_public nonce g.seal_nonce),
    ))
    own_quote ← lift (
        quote g.attest
          (nonce ++ give_binding c joiner_public giver_public g.seal_nonce sealed_root))
    pure (record {
      quote_b64 = c.base64_encode own_quote.quote_bytes;
      giver_public_b64 = c.base64_encode giver_public;
      seal_nonce_b64 = c.base64_encode g.seal_nonce;
      sealed_root_b64 = c.base64_encode sealed_root;
    })

  -- A base64 text of 12 bytes.
  unfoldable pub decode_seal_nonce : Str → Service Bytes
  decode_seal_nonce value = Errors.◌>>=◌ (map_err invalid_base64 (c.base64_decode value)) λ bytes.
      if length bytes == 12
      then ok bytes
      else err (invalid_attestation_request (lit "sealNonceB64 is 12 bytes"))

  -- `fail`: the peer's address before the text of the error.
  abbrev pub fail : Str → Str → ServiceError
  fail peer e = attestation_verification_failed (peer ++ (lit ": " ++ e))

  unfoldable pub join_from : Joining → TdxBackend → AttestationPolicy → Str → Service Root
  unfolding decode_seal_nonce
  join_from g tdx policy address =
      let peer = trim_end_slashes address in
      let joiner_public = c.mul_base_clamped g.joiner_secret in
      Errors.◌>>=◌ (map_err (fail peer) (g.fetch_nonce (peer ++ lit "/cluster/nonce"))) λ nonce_b64.
        Errors.◌>>=◌ (decode_fixed_b64_32 c (lit "nonceB64") nonce_b64) λ nonce.
          Errors.◌>>=◌ (quote g.attest (nonce ++ join_binding c joiner_public)) λ own_quote.
            Errors.◌>>=◌
              (map_err (fail peer) (
                g.fetch_join (peer ++ lit "/cluster/join") (record {
                  nonce_b64 = c.base64_encode nonce;
                  joiner_public_b64 = c.base64_encode joiner_public;
                  quote_b64 = c.base64_encode own_quote.quote_bytes;
                })))
              λ response.
                Errors.◌>>=◌
                  (decode_fixed_b64_32 c (lit "giverPublicB64") response.giver_public_b64)
                  λ giver_public.
                    Errors.◌>>=◌ (decode_seal_nonce response.seal_nonce_b64) λ seal_nonce.
                      Errors.◌>>=◌
                        (map_err invalid_base64 (c.base64_decode response.sealed_root_b64))
                        λ sealed_root.
                          Errors.◌>>=◌ (map_err invalid_base64 (c.base64_decode response.quote_b64))
                            λ giver_quote.
                              Errors.◌>>=◌
                                (verify_peer c messages g.verify tdx policy giver_quote nonce (
                                  give_binding c joiner_public giver_public seal_nonce sealed_root))
                                λ _.
                                  open_root c g.joiner_secret giver_public nonce seal_nonce
                                    sealed_root

  -- One round over the peers: whether the joiner is done, and its state. The loop of
  -- `join_until_ready` repeats it after a pause.
  unfoldable pub join_round :
      AttestationPolicy → TdxBackend → List (Str × Joining) → TdxBackend × Bool
  join_round policy tdx [] = (tdx, false)
  join_round policy tdx ((peer, g) ∷ peers) = elim (join_from g tdx policy peer) [
    | ok root ↦ ((set_root tdx root).0, true)
    | err e ↦ join_round policy (record_join_error tdx (peer ++ (lit ": " ++ show_error e))) peers
  ]
