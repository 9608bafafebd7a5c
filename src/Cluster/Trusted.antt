-- ===== src/Cluster/Trusted.antt =====
-- mero-kms/src/cluster.rs, `join_from`: from whom a joiner takes a root.
use mero_tee.Prelude.{◌≡◌, inl, inr, true, false, arith, ◌++◌}
use mero_tee.Text.{Str, Bytes, lit, trim_end_slashes}
use mero_tee.Errors.{ServiceError, ok, Result-cases}
use mero_tee.Crypto.{Crypto}
use mero_tee.Measurement.{is_debug_td}
use mero_tee.Backend.{TdxBackend, Root, measurements_of, quote, AttestationResult}
use mero_tee.Attest.{decode_fixed_b64_32}
use mero_tee.Policy.{AttestationPolicy, VerificationResult}
use mero_tee.Cluster.{
  Messages, verify_peer, check_peer, join_binding, give_binding, open_root, VerifyAttestation,
}
use mero_tee.Cluster.Sealing.{check_peer_iff, HasStatus}
use mero_tee.Cluster.Join.{Joining, JoinRequest, JoinResponse, join_from, decode_seal_nonce}

module _ (c : Crypto) (messages : Messages) where
  -- The attestation crate found the quote valid, of no debug TD, of a TCB status that the policy
  -- names, and of this replica's own measurements.
  pub IsPeerQuote :
      VerifyAttestation → TdxBackend → AttestationPolicy → Bytes → Bytes → Bytes → Type 0
  IsPeerQuote verify tdx policy quote_bytes nonce binding =
      (v : VerificationResult) × (verify quote_bytes nonce binding ≡ ok v)
      × (v.is_valid ≡ true)
      × (is_debug_td c v.body.tdattributes ≡ false)
      × HasStatus policy v.tcb_status
      × (measurements_of v.body ≡ tdx.own)

  pub verify_peer-IsPeerQuote :
      (verify : VerifyAttestation) (tdx : TdxBackend) (policy : AttestationPolicy)
      (quote_bytes nonce binding : Bytes)
      → verify_peer c messages verify tdx policy quote_bytes nonce binding ≡ ok tt
      → IsPeerQuote verify tdx policy quote_bytes nonce binding
  unfolding verify_peer IsPeerQuote
  verify_peer-IsPeerQuote verify tdx policy quote_bytes nonce binding h =
      elim (Result-cases (verify quote_bytes nonce binding)) [
        | inr (e, f) ↦ absurd (ground arith)
        | inl (v, found) ↦
            let checked : check_peer c messages v tdx.own policy ≡ ok tt = ground arith in
            let (valid, safe, status, same) =
              (check_peer_iff c messages v tdx.own policy).0 checked in
            (v, found, valid, safe, status, same)
      ]

  module _ (show_error : ServiceError → Str) where
    -- What a joiner that took a root met at the peer: an answer to its own nonce whose quote, over
    -- the keys and the sealed root of the exchange, is a peer's, and which opens to the root.
    pub record IsTrusted (g : Joining) (tdx : TdxBackend) (policy : AttestationPolicy)
        (address : Str) (root : Root) : Type 0 where
      pub nonce : Bytes
      pub own : AttestationResult
      pub response : JoinResponse
      pub giver_public : Bytes
      pub seal_nonce : Bytes
      pub sealed_root : Bytes
      pub giver_quote : Bytes
      pub answered :
          g.fetch_join (trim_end_slashes address ++ lit "/cluster/join") (record {
            nonce_b64 = c.base64_encode nonce;
            joiner_public_b64 = c.base64_encode (c.mul_base_clamped g.joiner_secret);
            quote_b64 = c.base64_encode own.quote_bytes;
          })
          ≡ ok response
      pub public_decodes :
          decode_fixed_b64_32 c (lit "giverPublicB64") response.giver_public_b64 ≡ ok giver_public
      pub sealed_decodes : c.base64_decode response.sealed_root_b64 ≡ ok sealed_root
      pub quote_decodes : c.base64_decode response.quote_b64 ≡ ok giver_quote
      pub attested :
          IsPeerQuote g.verify tdx policy giver_quote nonce (
            give_binding c (c.mul_base_clamped g.joiner_secret) giver_public seal_nonce sealed_root)
      pub opens : open_root c g.joiner_secret giver_public nonce seal_nonce sealed_root ≡ ok root

    module _ (g : Joining) (tdx : TdxBackend) (policy : AttestationPolicy) (address : Str)
        (root : Root) (h : join_from c messages show_error g tdx policy address ≡ ok root) where
      peer : Str
      peer = trim_end_slashes address

      asking : Bytes → AttestationResult → JoinRequest
      asking nonce own = record {
        nonce_b64 = c.base64_encode nonce;
        joiner_public_b64 = c.base64_encode (c.mul_base_clamped g.joiner_secret);
        quote_b64 = c.base64_encode own.quote_bytes;
      }

      -- The exchange up to the peer's answer.
      asked :
          (nonce_b64 : Str) × (nonce : Bytes) × (own : AttestationResult)
          × (response : JoinResponse) × (g.fetch_nonce (peer ++ lit "/cluster/nonce")
              ≡ ok nonce_b64)
          × (decode_fixed_b64_32 c (lit "nonceB64") nonce_b64 ≡ ok nonce)
          × (quote g.attest (nonce ++ join_binding c (c.mul_base_clamped g.joiner_secret)) ≡ ok own)
          × (g.fetch_join (peer ++ lit "/cluster/join") (asking nonce own) ≡ ok response)
      unfolding join_from peer asking
      asked = elim (Result-cases (g.fetch_nonce (peer ++ lit "/cluster/nonce"))) [
        | inr (e, f) ↦ absurd (ground arith)
        | inl (nonce_b64, fetched) ↦
            elim (Result-cases (decode_fixed_b64_32 c (lit "nonceB64") nonce_b64)) [
              | inr (e, f) ↦ absurd (ground arith)
              | inl (nonce, decoded) ↦
                  elim (Result-cases (
                    quote g.attest
                      (nonce ++ join_binding c (c.mul_base_clamped g.joiner_secret)))) [
                        | inr (e, f) ↦ absurd (ground arith)
                        | inl (own, quoted) ↦
                            elim (Result-cases
                              (g.fetch_join (peer ++ lit "/cluster/join") (asking nonce own))) [
                                | inr (e, f) ↦ absurd (ground arith)
                                | inl (response, answered) ↦ (
                                  nonce_b64, nonce, own, response, fetched, decoded, quoted,
                                  answered,
                                )
                              ]
                      ]
            ]
      ]

      -- A joiner takes a root only from an answer whose quote, over the nonce of the exchange, both
      -- keys and the sealed root, is that of a TD with this replica's own measurements, an allowed
      -- TCB status and no debug bit, and the root is what the answer opens to.
      pub join_from-IsTrusted : IsTrusted g tdx policy address root
      unfolding join_from peer asking
      join_from-IsTrusted =
          let (nonce_b64, nonce, own, response, fetched, decoded, quoted, answered) = asked in
          elim (Result-cases
            (decode_fixed_b64_32 c (lit "giverPublicB64") response.giver_public_b64)) [
              | inr (e, f) ↦ absurd (ground arith)
              | inl (giver_public, public_is) ↦
                  elim (Result-cases
                    (decode_seal_nonce c messages show_error response.seal_nonce_b64)) [
                      | inr (e, f) ↦ absurd (ground arith)
                      | inl (seal_nonce, nonce_is) ↦
                          elim (Result-cases (c.base64_decode response.sealed_root_b64)) [
                            | inr (e, f) ↦ absurd (ground arith)
                            | inl (sealed_root, sealed_is) ↦
                                elim (Result-cases (c.base64_decode response.quote_b64)) [
                                  | inr (e, f) ↦ absurd (ground arith)
                                  | inl (giver_quote, quote_is) ↦ record {
                                    nonce = nonce;
                                    own = own;
                                    answered = answered;
                                    response = response;
                                    giver_public = giver_public;
                                    seal_nonce = seal_nonce;
                                    sealed_root = sealed_root;
                                    giver_quote = giver_quote;
                                    public_decodes = public_is;
                                    sealed_decodes = sealed_is;
                                    quote_decodes = quote_is;
                                    attested =
                                        verify_peer-IsPeerQuote g.verify tdx policy giver_quote
                                          nonce _ (ground arith);
                                    opens = ground arith;
                                  }
                                ]
                          ]
                    ]
            ]
