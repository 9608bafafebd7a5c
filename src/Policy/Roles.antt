-- ===== src/Policy/Roles.antt =====
-- mero-kms/src/policy.rs and mero-kms/src/handlers/get_key.rs: which quotes a policy lets through,
-- and with which role.
use mero_tee.Prelude.{
  ◌≡◌, refl, sym, ◌∙◌, true, Option, none, some, [], list_eq, any, arith, inl, inr, Bool-cases,
  Option-cases, subst,
}
use mero_tee.Text.{Str, to_ascii_lowercase}
use mero_tee.Errors.{ok, ◌>>◌, >>=-eq-ok}
use mero_tee.Policy.{
  Role, PolicyEntry, AttestationPolicy, VerificationResult, register_fields, quote_registers,
  match_entries, enforce_tcb_status, enforce_attestation_policy, check_entries,
  validate_policy_requirements,
}
use mero_tee.Policy.Registers.{Allows}
use mero_tee.Policy.Entries.{Among, match_entries_sound, match_entries_complete}

-- The quote's TCB status is one that the policy allows, whatever the case it is written in.
abbrev pub IsAllowedStatus : AttestationPolicy → Option Str → Type 0
IsAllowedStatus policy none = ⊥
IsAllowedStatus policy (some status) =
    any (λ allowed. list_eq allowed (to_ascii_lowercase status)) policy.allowed_tcb_statuses ≡ true

enforce-unfolded :
    (policy : AttestationPolicy) (result : VerificationResult)
    → policy.enforce_measurement_policy ≡ true
    → (enforce_attestation_policy policy result) ≡ (
        enforce_tcb_status policy result
        >> match_entries none policy.entries (quote_registers result.body))
unfolding enforce_attestation_policy
enforce-unfolded policy result h = rw h refl

tcb_status-eq :
    (policy : AttestationPolicy) (result : VerificationResult)
    → enforce_tcb_status policy result ≡ ok tt
    → IsAllowedStatus policy result.tcb_status
unfolding enforce_tcb_status
tcb_status-eq policy result h = elim (Option-cases result.tcb_status) [
  | inl missing ↦ absurd (ground arith)
  | inr (status, given) ↦
      elim (Bool-cases (
        any (λ allowed. list_eq allowed (to_ascii_lowercase status)) policy.allowed_tcb_statuses)) [
          | inl allowed ↦ rw given allowed
          | inr other ↦ absurd (ground arith)
        ]
]

tcb_status-of :
    (policy : AttestationPolicy) (result : VerificationResult)
    → IsAllowedStatus policy result.tcb_status
    → enforce_tcb_status policy result ≡ ok tt
unfolding enforce_tcb_status
tcb_status-of policy result h = elim (Option-cases result.tcb_status) [
  | inl missing ↦ absurd (subst (IsAllowedStatus policy) missing h)
  | inr (status, given) ↦
      let allowed = subst (IsAllowedStatus policy) given h in rw (given, allowed) refl
]

-- Under an enforced policy, a quote is given a role only if its TCB status is allowed and all its
-- five registers are allowed by one entry of the policy, which has that role.
pub enforce_sound :
    (policy : AttestationPolicy) (result : VerificationResult) (role : Role)
    → policy.enforce_measurement_policy ≡ true
    → enforce_attestation_policy policy result ≡ ok role
    → IsAllowedStatus policy result.tcb_status
      × (e : PolicyEntry) × Among e policy.entries
      × (e.role ≡ role)
      × Allows (register_fields e) (quote_registers result.body)
enforce_sound policy result role on h =
    let (u, status, matched) =
      >>=-eq-ok (enforce_tcb_status policy result)
        (λ _. match_entries none policy.entries (quote_registers result.body))
        (sym (enforce-unfolded policy result on) ∙ h) in
    let (e, among, same, fits) =
      match_entries_sound none policy.entries (quote_registers result.body) matched in
    (tcb_status-eq policy result status, e, among, same, fits)

validated :
    (policy : AttestationPolicy)
    → policy.enforce_measurement_policy ≡ true
    → validate_policy_requirements policy ≡ ok tt
    → check_entries [] policy.entries ≡ ok tt
unfolding validate_policy_requirements
validated policy on h = ground arith

-- Under a policy that passed the startup validation, a quote with an allowed TCB status is given
-- the role of the entry that allows its five registers, whichever entry that is and wherever it
-- stands: no other entry of the policy can take the quote.
pub enforce_complete :
    (policy : AttestationPolicy) (result : VerificationResult) (e : PolicyEntry)
    → policy.enforce_measurement_policy ≡ true
    → validate_policy_requirements policy ≡ ok tt
    → IsAllowedStatus policy result.tcb_status
    → Among e policy.entries
    → Allows (register_fields e) (quote_registers result.body)
    → enforce_attestation_policy policy result ≡ ok e.role
enforce_complete policy result e on valid status among fits =
    enforce-unfolded policy result on
    ∙ (rw (tcb_status-of policy result status) (
        match_entries_complete none [] policy.entries (quote_registers result.body) e
          (unfold quote_registers in refl) (validated policy on valid) among fits))
