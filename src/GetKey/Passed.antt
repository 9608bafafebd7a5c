-- ===== src/GetKey/Passed.antt =====
-- mero-kms/src/handlers/get_key.rs: what a request that is answered with a key has passed, in terms
-- of the keys, the quote and the policy.
use mero_tee.Prelude.{
  ℕ, ◌≤◌, ◌≡◌, ◌∙◌, ap, ◌⊎◌, inl, inr, true, false, Option, none, some, ◌++◌, drop, arith,
  Bool-cases,
}
use mero_tee.Text.{Bytes, from_be_bytes, to_ascii_lowercase, saturating_add}
use mero_tee.Errors.{ok, Result-cases}
use mero_tee.Crypto.{Crypto, CodecLaws, MacLaws}
use mero_tee.Map.{get}
use mero_tee.Map.Order.{list_ord}
use mero_tee.Map.Laws.{IsSorted}
use mero_tee.Backend.{challenge_key}
use mero_tee.Policy.{
  Role, node, PolicyEntry, VerificationResult, AttestationPolicy, enforce_attestation_policy,
  register_fields, quote_registers,
}
use mero_tee.Policy.Registers.{Allows}
use mero_tee.Policy.Entries.{Among}
use mero_tee.Policy.Roles.{IsAllowedStatus, enforce_sound}
use mero_tee.Challenge.{decode_id, mac, tag_domain, nonce}
use mero_tee.Challenge.Tokens.{open_id-eq-ok}
use mero_tee.Config.{Config}
use mero_tee.State.{AppState}
use mero_tee.Counters.Replica.{CounterJson}
use mero_tee.GetKey.{
  Libraries, Request, GetKeyResponse, open_challenge, require_valid, verify_and_enforce_attestation,
  release_key, decode_seal_to,
}
use mero_tee.GetKey.Authorized.{expiry_of}
use mero_tee.GetKey.Release.{release_key-inv}
use mero_tee.Challenge.Abstract.{live_at, abstract_of, spend-first}
use mero_tee.GetKey.Signed.{
  IsSigned, bound_to, verify_peer_signature_for-IsSigned, binding_of-bound_to,
}

module _ (c : Crypto) (libs : Libraries) where
  -- The role that a policy gives to a verified quote: that of an entry which allows its registers,
  -- at an allowed TCB status; where policies are not enforced, every quote is a node's.
  abbrev pub HasRole : AttestationPolicy → VerificationResult → Role → Type 0
  HasRole policy v role =
      ((policy.enforce_measurement_policy ≡ false) × (role ≡ node))
      ⊎ ((policy.enforce_measurement_policy ≡ true)
          × IsAllowedStatus policy v.tcb_status
          × (e : PolicyEntry) × Among e policy.entries
          × (e.role ≡ role)
          × Allows (register_fields e) (quote_registers v.body))

  -- The attestation crate finds the quote valid over the nonce and the binding, and the policy gives
  -- it the role.
  abbrev pub IsAttested : Config → Bytes → Bytes → Bytes → Role → Type 0
  IsAttested config quote_bytes challenge_nonce bound role =
      (v : VerificationResult) × (libs.verify_attestation quote_bytes challenge_nonce bound ≡ ok v)
      × (v.is_valid ≡ true)
      × HasRole config.attestation_policy v role

  verify_and_enforce_attestation-IsAttested :
      (config : Config) (quote_bytes challenge_nonce bound : Bytes) (role : Role)
      → verify_and_enforce_attestation c libs config quote_bytes challenge_nonce bound ≡ ok role
      → IsAttested config quote_bytes challenge_nonce bound role
  unfolding verify_and_enforce_attestation require_valid
  verify_and_enforce_attestation-IsAttested config quote_bytes challenge_nonce bound role h =
      let policy = config.attestation_policy in
      elim (Result-cases (libs.verify_attestation quote_bytes challenge_nonce bound)) [
        | inr (e, f) ↦ absurd (ground arith)
        | inl (v, found) ↦
            let valid : v.is_valid ≡ true = ground arith in
            let given : enforce_attestation_policy policy v ≡ ok role = ground arith in
            elim (Bool-cases policy.enforce_measurement_policy) [
              | inl on ↦
                  let (status, e, among, same, fits) = enforce_sound policy v role on given in
                  (v, found, valid, inr (on, status, e, among, same, fits))
              | inr off ↦
                  (v, found, valid, inl (off, unfold enforce_attestation_policy in ground arith))
            ]
      ]

  -- A challenge id carries the tag that the cluster's key gives to its body and the peer, and at the
  -- instant of its opening its expiry, which the body holds, had not passed and was no later than
  -- this replica would issue; the nonce is the body's.
  pub record IsOpened (s : AppState) (r : Request) (challenge_nonce : Bytes) (expires_at : ℕ)
      : Type 0 where
    pub key : Bytes
    pub body : Bytes
    pub moment : ℕ
    pub key_is : challenge_key c s.backend ≡ ok key
    pub tagged :
        decode_id c r.request.challenge_id
        ≡ some (body ++ mac c key tag_domain body r.request.peer_id)
    pub nonce_is : challenge_nonce ≡ nonce c key body r.request.peer_id
    pub expiry_is : expires_at ≡ from_be_bytes (drop 16 body)
    pub opened_at : r.opened_at ≡ ok moment
    pub fresh : moment ≤ expires_at
    pub issuable :
        expires_at ≤ saturating_add (saturating_add moment s.config.challenge_ttl_secs) 30

  open_challenge-IsOpened :
      (codec : CodecLaws c) (laws : MacLaws c) (s : AppState) (r : Request)
      (challenge_nonce : Bytes) (expires_at : ℕ)
      → open_challenge c libs s r.opened_at r.request ≡ ok (challenge_nonce, expires_at)
      → IsOpened s r challenge_nonce expires_at
  unfolding open_challenge
  open_challenge-IsOpened codec laws s r challenge_nonce expires_at h =
      elim (Result-cases r.opened_at) [
        | inr (e, f) ↦ absurd (ground arith)
        | inl (moment, read) ↦ elim (Result-cases (challenge_key c s.backend)) [
          | inr (e, f) ↦ absurd (ground arith)
          | inl (key, key_is) ↦
              let (body, tagged, nonce_is, expiry_is, fresh, issuable) =
                open_id-eq-ok c codec laws key r.request.challenge_id r.request.peer_id moment
                  s.config.challenge_ttl_secs (ground arith) in
              record {
                key = key;
                body = body;
                moment = moment;
                key_is = key_is;
                tagged = tagged;
                nonce_is = nonce_is;
                expiry_is = expiry_is;
                opened_at = read;
                fresh = fresh;
                issuable = issuable;
              }
        ]
      ]

  -- All that a request which was answered with a key has passed, the challenge's use among it: under
  -- its id in lower case no unexpired use was remembered, and its own is remembered now.
  pub record IsPassed (s s' : AppState) (r : Request) : Type 0 where
    pub challenge_nonce : Bytes
    pub quote_bytes : Bytes
    pub expires_at : ℕ
    pub seal_to : Option Bytes
    pub role : Role
    pub spent_at : ℕ
    pub quote_decodes : c.base64_decode r.request.quote_b64 ≡ ok quote_bytes
    pub seal_decodes : decode_seal_to c libs r.request.seal_to_b64 ≡ ok seal_to
    pub opened : IsOpened s r challenge_nonce expires_at
    pub signed : IsSigned c libs r.request challenge_nonce quote_bytes seal_to
    pub attested :
        IsAttested s.config quote_bytes challenge_nonce
          (bound_to c libs seal_to r.request.peer_id r.request.rollback_node_id)
          role
    pub spending_read : r.spent_at ≡ ok spent_at
    pub unused :
        live_at spent_at
          (abstract_of s.spent_challenges)
          (to_ascii_lowercase r.request.challenge_id)
        ≡ none
    pub used : get s'.spent_challenges (to_ascii_lowercase r.request.challenge_id) ≡ some expires_at

  -- A request is answered with a key only if its challenge carries the tag of this cluster's key for
  -- this peer and is fresh; the key of its peer id signed the challenge, the quote and the key to seal
  -- to; the quote is valid over the challenge's nonce and that key, and the policy gives it a role;
  -- and no earlier use of the challenge that had not expired was remembered, while this one is.
  pub release_key-passes :
      (codec : CodecLaws c) (laws : MacLaws c) (j : CounterJson) (r : Request) (s s' : AppState)
      (response : GetKeyResponse)
      → IsSorted s.spent_challenges
      → release_key c libs j r s ≡ (s', ok response)
      → IsPassed s s' r
  release_key-passes codec laws j r s s' response sorted h =
      let (challenge_nonce, seal_to, role, moment, a, read, accepted, after) =
        release_key-inv c libs j r s s' response h in
      let id = to_ascii_lowercase r.request.challenge_id in
      let expires_at = expiry_of c libs r.request.challenge_id in
      let (fresh, kept) =
        spend-first s.spent_challenges moment sorted id expires_at s.config.max_consumed_challenges
          accepted in
      record {
        challenge_nonce = challenge_nonce;
        quote_bytes = a.quote_bytes;
        expires_at = expires_at;
        seal_to = seal_to;
        role = role;
        spent_at = moment;
        quote_decodes = a.quote_decodes;
        seal_decodes = a.seal_decodes;
        opened = open_challenge-IsOpened codec laws s r challenge_nonce expires_at a.opened;
        signed =
            verify_peer_signature_for-IsSigned c libs r.request challenge_nonce a.quote_bytes
              seal_to a.signed;
        attested =
            verify_and_enforce_attestation-IsAttested s.config a.quote_bytes challenge_nonce _ role
              (rw (binding_of-bound_to c libs seal_to r.request.peer_id r.request.rollback_node_id)
                at a.attested);
        spending_read = read;
        unused = fresh;
        used = ap (λ m. get m id) after ∙ kept;
      }
