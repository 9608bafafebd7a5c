-- ===== src/Cluster/Sealing.antt =====
-- mero-kms/src/cluster.rs, `seal_root`, `open_root` and `check_peer`: what a joiner opens, and
-- which peers pass.
use mero_tee.Prelude.{
  ◌≡◌, refl, sym, ◌↔◌, true, false, Option, none, some, ◌++◌, length, ◌==◌, all, any, list_eq_iff,
  list_eq_refl, arith, Bool-cases, Option-cases, inl, inr, subst,
}
use mero_tee.Text.{Str, Bytes, eq_ignore_ascii_case}
use mero_tee.Errors.{ok}
use mero_tee.Crypto.{Crypto, SealLaws}
use mero_tee.Measurement.{is_debug_td}
use mero_tee.Backend.{Root, Measurements, measurements_of, root_from_bytes}
use mero_tee.Policy.{AttestationPolicy, VerificationResult}
use mero_tee.Cluster.{
  seal_root, open_root, root_seal_key, root_seal_domain, check_peer, Messages, measurements_eq,
}

-- What a giver seals of a 32-byte root to a joiner's one-time key, the joiner opens with the secret
-- of that key to the giver's root, when both use the same nonces.
pub open_root-seal_root :
    (c : Crypto) (laws : SealLaws c) (root : Root)
    (giver_secret joiner_secret join_nonce seal_nonce sealed : Bytes)
    → length root.bytes ≡ 32
    → seal_root c root giver_secret (c.mul_base_clamped joiner_secret) join_nonce seal_nonce
      ≡ ok sealed
    → open_root c joiner_secret (c.mul_base_clamped giver_secret) join_nonce seal_nonce sealed
      ≡ ok root
unfolding seal_root open_root root_seal_key root_from_bytes
open_root-seal_root c laws root giver_secret joiner_secret join_nonce seal_nonce sealed h sealing =
    let shared = c.mul_clamped (c.mul_base_clamped joiner_secret) giver_secret in
    let agree : c.mul_clamped (c.mul_base_clamped giver_secret) joiner_secret ≡ shared =
      laws.agree giver_secret joiner_secret in
    let key =
      c.hkdf join_nonce shared (
        root_seal_domain
        ++ (c.mul_base_clamped giver_secret ++ c.mul_base_clamped joiner_secret)) in
    elim (Bool-cases (all (λ byte. byte == 0) shared)) [
      | inl low ↦ absurd (ground arith)
      | inr strong ↦ elim (Option-cases (c.aead_seal key seal_nonce root_seal_domain root.bytes)) [
        | inl failed ↦ absurd (ground arith)
        | inr (text, found) ↦
            let same : text ≡ sealed = ground arith in
            let opened = laws.open_seal key seal_nonce root_seal_domain root.bytes text found in
            rw (agree, strong, sym same, opened) (ground arith)
      ]
    ]

measurements_eq_iff : (a b : Measurements) → (measurements_eq a b ≡ true) ↔ (a ≡ b)
unfolding measurements_eq
measurements_eq_iff a b = (
  λ h. ground (
    arith,
    list_eq_iff a.mrtd b.mrtd,
    list_eq_iff a.rtmr0 b.rtmr0,
    list_eq_iff a.rtmr1 b.rtmr1,
    list_eq_iff a.rtmr2 b.rtmr2,
    list_eq_iff a.rtmr3 b.rtmr3,
  ),
  λ h. rw h (
      ground (
        arith,
        list_eq_refl b.mrtd,
        list_eq_refl b.rtmr0,
        list_eq_refl b.rtmr1,
        list_eq_refl b.rtmr2,
        list_eq_refl b.rtmr3,
      )),
)

-- A TCB status that the policy names, in any case.
abbrev pub HasStatus : AttestationPolicy → Option Str → Type 0
HasStatus policy none = ⊥
HasStatus policy (some status) =
    any (λ allowed. eq_ignore_ascii_case allowed status) policy.allowed_tcb_statuses ≡ true

-- A verified quote passes as a peer's exactly if the attestation crate found it valid, its TD is
-- no debug TD, its TCB status is one that the policy names, and its five measurements, in lower
-- case, are this replica's own.
pub check_peer_iff :
    (c : Crypto) (messages : Messages) (v : VerificationResult) (own : Measurements)
    (policy : AttestationPolicy)
    → (check_peer c messages v own policy ≡ ok tt) ↔ (
        (v.is_valid ≡ true)
        × (is_debug_td c v.body.tdattributes ≡ false)
        × HasStatus policy v.tcb_status
        × (measurements_of v.body ≡ own))
unfolding check_peer
check_peer_iff c messages v own policy =
    let same = measurements_eq_iff (measurements_of v.body) own in
    elim (Option-cases v.tcb_status) [
      | inl missing ↦ (
        λ h. absurd (ground arith),
        λ (valid, safe, status, equal). absurd (subst (HasStatus policy) missing status),
      )
      | inr (status, given) ↦ (
        λ h. (ground arith, ground arith, rw given (ground arith), same.0 (ground arith)),
        λ (valid, safe, allowed, equal).
            let named = subst (HasStatus policy) given allowed in
            rw (valid, safe, given, named, same.1 equal) refl,
      )
    ]
