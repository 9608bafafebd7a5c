-- ===== src/Cluster/Exchange.antt =====
-- mero-kms/src/cluster.rs: the two sides of a join together. What the giver answers to the joiner's
-- request, the joiner opens to the giver's root.
use mero_tee.Prelude.{◌≡◌, refl, inl, inr, some, arith, ◌++◌, length}
use mero_tee.Text.{Str, Bytes, lit, trim_end_slashes}
use mero_tee.Errors.{ServiceError, ok, Result-cases}
use mero_tee.Crypto.{Crypto, CodecLaws, SealLaws}
use mero_tee.Backend.{TdxBackend, Root, quote, AttestationResult, with_root}
use mero_tee.Attest.{decode_fixed_b64_32}
use mero_tee.Policy.{AttestationPolicy}
use mero_tee.Cluster.{Messages, verify_peer, join_binding, give_binding, seal_root}
use mero_tee.Cluster.Sealing.{open_root-seal_root}
use mero_tee.Cluster.Join.{
  Giving, Joining, JoinRequest, JoinResponse, join_handler, require_peer, join_from,
  decode_seal_nonce,
}
use mero_tee.State.{AppState}

decode_fixed_b64_32-base64 :
    (c : Crypto) (laws : CodecLaws c) (name : Str) (b : Bytes)
    → length b ≡ 32
    → decode_fixed_b64_32 c name (c.base64_encode b) ≡ ok b
unfolding decode_fixed_b64_32
decode_fixed_b64_32-base64 c laws name b size = rw (laws.base64 b, size) refl

module _ (c : Crypto) (messages : Messages) (show_error : ServiceError → Str) where
  decode_seal_nonce-base64 :
      (laws : CodecLaws c) (b : Bytes)
      → length b ≡ 12
      → decode_seal_nonce c messages show_error (c.base64_encode b) ≡ ok b
  unfolding decode_seal_nonce
  decode_seal_nonce-base64 laws b size = rw (laws.base64 b, size) refl

  -- The giver's side, by a request that carries this nonce and this key.
  module _ (laws : CodecLaws c) (g : Giving) (s s' : AppState) (root : Root)
      (nonce joiner_public quote_bytes : Bytes) (response : JoinResponse)
      (held : s.backend.root ≡ some root) (nonce_size : length nonce ≡ 32)
      (key_size : length joiner_public ≡ 32)
      (h : join_handler c messages show_error g
          (record {
            nonce_b64 = c.base64_encode nonce;
            joiner_public_b64 = c.base64_encode joiner_public;
            quote_b64 = c.base64_encode quote_bytes;
          })
          s
        ≡ (s', ok response)) where
    abbrev giver_public : Bytes
    giver_public = c.mul_base_clamped g.giver_secret

    made :
        (sealed : Bytes) × (own : AttestationResult) × (seal_root c root g.giver_secret
            joiner_public nonce g.seal_nonce
          ≡ ok sealed)
        × (quote g.attest (nonce ++ give_binding c joiner_public giver_public g.seal_nonce sealed)
            ≡ ok own)
        × (response ≡ record {
          quote_b64 = c.base64_encode own.quote_bytes;
          giver_public_b64 = c.base64_encode giver_public;
          seal_nonce_b64 = c.base64_encode g.seal_nonce;
          sealed_root_b64 = c.base64_encode sealed;
        })
    unfolding join_handler require_peer with_root
    made =
        let nonce_back = decode_fixed_b64_32-base64 c laws (lit "nonceB64") nonce nonce_size in
        let key_back =
          decode_fixed_b64_32-base64 c laws (lit "joinerPublicB64") joiner_public key_size in
        elim (Result-cases (seal_root c root g.giver_secret joiner_public nonce g.seal_nonce)) [
          | inr (e, f) ↦ absurd (ground arith)
          | inl (sealed, sealing) ↦
              elim (Result-cases (
                quote g.attest
                  (nonce ++ give_binding c joiner_public giver_public g.seal_nonce sealed))) [
                    | inr (e, f) ↦ absurd (ground arith)
                    | inl (own, quoted) ↦ (sealed, own, sealing, quoted, ground arith)
                  ]
        ]

  module _ (laws : CodecLaws c) (sealing_laws : SealLaws c) (g : Giving) (s s' : AppState)
      (root : Root) (held : s.backend.root ≡ some root) (root_size : length root.bytes ≡ 32)
      (seal_nonce_size : length g.seal_nonce ≡ 12)
      (giver_size : length (c.mul_base_clamped g.giver_secret) ≡ 32) (k : Joining)
      (joiner_size : length (c.mul_base_clamped k.joiner_secret) ≡ 32) (tdx : TdxBackend)
      (policy : AttestationPolicy) (address : Str) (nonce : Bytes) (nonce_size : length nonce ≡ 32)
      (own : AttestationResult) (response : JoinResponse) where
    abbrev request : JoinRequest
    request = record {
      nonce_b64 = c.base64_encode nonce;
      joiner_public_b64 = c.base64_encode (c.mul_base_clamped k.joiner_secret);
      quote_b64 = c.base64_encode own.quote_bytes;
    }

    -- A joiner asks a giver over a network that delivers: it fetched the giver's nonce, sent its
    -- request, and received what the giver answered; and it accepts the giver's quotes as a
    -- peer's. Then it takes the root that the giver holds.
    pub join_from-join_handler :
        k.fetch_nonce (trim_end_slashes address ++ lit "/cluster/nonce")
          ≡ ok (c.base64_encode nonce)
        → quote k.attest (nonce ++ join_binding c (c.mul_base_clamped k.joiner_secret)) ≡ ok own
        → k.fetch_join (trim_end_slashes address ++ lit "/cluster/join") request ≡ ok response
        → join_handler c messages show_error g request s ≡ (s', ok response)
        → ((binding : Bytes) (q : AttestationResult)
            → quote g.attest (nonce ++ binding) ≡ ok q
            → verify_peer c messages k.verify tdx policy q.quote_bytes nonce binding ≡ ok tt)
        → join_from c messages show_error k tdx policy address ≡ ok root
    unfolding join_from
    join_from-join_handler fetched quoted delivered handled accepted =
        let (sealed, given, sealing, given_quote, answer) =
          made laws g s s' root nonce (c.mul_base_clamped k.joiner_secret) own.quote_bytes response
            held nonce_size joiner_size handled in
        let verified = accepted _ given given_quote in
        let opened =
          open_root-seal_root c sealing_laws root g.giver_secret k.joiner_secret nonce g.seal_nonce
            sealed root_size sealing in
        let nonce_back = decode_fixed_b64_32-base64 c laws (lit "nonceB64") nonce nonce_size in
        let public_back =
          decode_fixed_b64_32-base64 c laws (lit "giverPublicB64")
            (c.mul_base_clamped g.giver_secret) giver_size in
        let seal_back = decode_seal_nonce-base64 laws g.seal_nonce seal_nonce_size in
        let sealed_back = laws.base64 sealed in
        let quote_back = laws.base64 given.quote_bytes in ground arith
