-- ===== src/Policy.antt =====
-- mero-kms/src/policy.rs: the attestation policy and its validation at startup; and, from
-- mero-kms/src/handlers/get_key.rs, how a verified quote is held against it.
pub mod Registers
pub mod Entries
pub mod Roles
use mero_tee.Prelude.{
  ℕ, suc, ◌+◌, String, Bool, true, false, not, ◌&&◌, ◌||◌, Option, none, some, List, [], ◌∷◌, ◌++◌,
  ltb, ◌==◌, if◌then◌else◌, list_eq, any, all, is_empty,
}
use mero_tee.Text.{Str, lit, trim, trim_0x, to_ascii_lowercase}
use mero_tee.Errors.{
  Result, Service, ServiceError, ok, err, ensure, ok_or, ◌>>=◌, ◌>>◌, tcb_status_rejected,
  measurement_policy_rejected,
}
use mero_tee.Measurement.{HexMeasurement, matches_raw, normalized}
use mero_tee.Backend.{QuoteBody}

pub data Role : Type 0 where
  node agent : Role

unfoldable pub role_eq : Role → Role → Bool
role_eq node node = true
role_eq node agent = false
role_eq agent node = false
role_eq agent agent = true

unfoldable pub as_str : Role → Str
as_str node = lit "node"
as_str agent = lit "agent"

pub record PolicyEntry : Type 0 where
  pub role : Role
  pub allowed_mrtd : List HexMeasurement
  pub allowed_rtmr0 : List HexMeasurement
  pub allowed_rtmr1 : List HexMeasurement
  pub allowed_rtmr2 : List HexMeasurement
  pub allowed_rtmr3 : List HexMeasurement

abbrev pub Field : Type 0
Field = Str × List HexMeasurement

unfoldable pub register_fields : PolicyEntry → List Field
register_fields e =
    (lit "MRTD", e.allowed_mrtd)
    ∷ (lit "RTMR0", e.allowed_rtmr0)
    ∷ (lit "RTMR1", e.allowed_rtmr1)
    ∷ (lit "RTMR2", e.allowed_rtmr2)
    ∷ (lit "RTMR3", e.allowed_rtmr3)
    ∷ []

pub record AttestationPolicy : Type 0 where
  pub enforce_measurement_policy : Bool
  pub allowed_tcb_statuses : List Str
  pub entries : List PolicyEntry

unfoldable pub default_policy : AttestationPolicy
default_policy = record {
  enforce_measurement_policy = true;
  allowed_tcb_statuses = lit "uptodate" ∷ [];
  entries = [];
}

-- `AttestationPolicy::entry`
unfoldable pub find_role : List PolicyEntry → Role → Option PolicyEntry
find_role [] role = none
find_role (e ∷ entries) role =
    let rest = find_role entries role in if role_eq e.role role then some e else rest

unfoldable pub check_measurement : List HexMeasurement → Str → Str → Result (Str × Str) (Unit {0})
check_measurement allowlist label raw =
    if is_empty allowlist
    then err (label, label ++ lit " allowlist is empty")
    else if any (λ m. matches_raw m raw) allowlist
    then ok tt
    else err (
      label,
      label
          ++ (lit " '" ++ (to_ascii_lowercase (trim_0x (trim raw)) ++ lit "' is not in allowlist")),
    )

unfoldable pub contains : List HexMeasurement → HexMeasurement → Bool
contains theirs value = any (λ m. list_eq m.value value.value) theirs

-- Every register's lists share a value.
unfoldable pub fields_overlap : List Field → List Field → Bool
unfolding contains
fields_overlap [] theirs = true
fields_overlap (a ∷ ours) [] = true
fields_overlap ((_, a) ∷ ours) ((_, b) ∷ theirs) = any (contains b) a && fields_overlap ours theirs

unfoldable pub entries_overlap : PolicyEntry → PolicyEntry → Bool
entries_overlap a b = fields_overlap (register_fields a) (register_fields b)

unfoldable pub env_prefix : Role → Str
env_prefix node = []
env_prefix agent = lit "AGENT_"

-- The last check of an entry: no register's list is empty.
unfoldable pub check_fields : Role → List Field → Result Str (Unit {0})
unfolding env_prefix as_str
check_fields role [] = ok tt
check_fields role ((label, allowlist) ∷ fields) =
    let rest = check_fields role fields in
    if is_empty allowlist
    then err (
        lit "Measurement policy is enforced, but the "
        ++ (as_str role
            ++ (lit " entry's allowed_"
                ++ (to_ascii_lowercase label
                    ++ (lit " is empty. Set "
                        ++ (env_prefix role
                            ++ (lit "ALLOWED_"
                                ++ (label ++ lit " to at least one trusted value."))))))))
    else rest

unfoldable pub find_overlap : List PolicyEntry → PolicyEntry → Option PolicyEntry
find_overlap [] entry = none
find_overlap (e ∷ earlier) entry =
    let rest = find_overlap earlier entry in if entries_overlap e entry then some e else rest

abbrev pub duplicate_role : Role → Str
duplicate_role role = lit "Measurement policy has more than one " ++ (as_str role ++ lit " entry")

abbrev pub overlapping : Role → Role → Str
overlapping a b =
    lit "Measurement policy entries "
    ++ (as_str a
        ++ (lit " and "
            ++ (as_str b ++ lit " share a value in every register, so one quote could match both")))

-- `if let Some(overlap) = .. { return Err(..) }`
unfoldable pub no_overlap : PolicyEntry → Option PolicyEntry → Result Str (Unit {0})
no_overlap entry none = ok tt
no_overlap entry (some e) = err (overlapping e.role entry.role)

-- One turn of the loop over the entries, after the earlier ones.
unfoldable pub check_entry : List PolicyEntry → PolicyEntry → Result Str (Unit {0})
check_entry earlier entry = do
  ensure (not (any (λ e. role_eq e.role entry.role) earlier)) (duplicate_role entry.role)
  no_overlap entry (find_overlap earlier entry)
  check_fields entry.role (register_fields entry)

unfoldable pub check_entries : List PolicyEntry → List PolicyEntry → Result Str (Unit {0})
check_entries earlier [] = ok tt
check_entries earlier (entry ∷ entries) = do
  check_entry earlier entry
  check_entries (earlier ++ entry ∷ []) entries

unfoldable pub validate_policy_requirements : AttestationPolicy → Result Str (Unit {0})
validate_policy_requirements policy =
    if not policy.enforce_measurement_policy
    then ok tt
    else if is_empty policy.allowed_tcb_statuses
    then err (
        lit
          "Measurement policy is enforced, but allowed_tcb_statuses is empty. Configure at least one allowed status (recommended: UpToDate).")
    else if is_empty policy.entries
    then err (lit "Measurement policy is enforced, but it has no entries. Set ALLOWED_MRTD..RTMR3.")
    else check_entries [] policy.entries

-- What the attestation crate found of a quote; `is_valid` is what its method answers.
pub record VerificationResult : Type 0 where
  pub is_valid : Bool
  pub quote_verified : Bool
  pub nonce_verified : Bool
  pub application_hash_verified : Bool
  pub tcb_status : Option Str
  pub body : QuoteBody

unfoldable pub quote_registers : QuoteBody → List Str
quote_registers b = b.mrtd ∷ b.rtmr0 ∷ b.rtmr1 ∷ b.rtmr2 ∷ b.rtmr3 ∷ []

-- `join(", ")`
unfoldable pub join_texts : Str → List Str → Str
join_texts sep [] = []
join_texts sep (a ∷ []) = a
join_texts sep (a ∷ b ∷ rest) = a ++ (sep ++ join_texts sep (b ∷ rest))

unfoldable pub enforce_tcb_status : AttestationPolicy → VerificationResult → Service (Unit {0})
enforce_tcb_status policy result = do
  actual ←
      ok_or result.tcb_status
        (tcb_status_rejected (lit "Quote verification did not provide a TCB status"))
  ensure (any (λ allowed. list_eq allowed (to_ascii_lowercase actual)) policy.allowed_tcb_statuses)
      (tcb_status_rejected (
        lit "TCB status '"
        ++ (actual
            ++ (lit "' is not allowed. Allowed values: "
                ++ join_texts (lit ", ") policy.allowed_tcb_statuses))))

-- The loop over an entry's registers: how many match, and the first that does not.
unfoldable pub scan_registers : List Field → List Str → ℕ × Option Str
scan_registers [] actuals = (0, none)
scan_registers (f ∷ fields) [] = (0, none)
scan_registers ((label, allowlist) ∷ fields) (actual ∷ actuals) =
    let (matched, failure) = scan_registers fields actuals in
    elim (check_measurement allowlist label actual) [
      | ok _ ↦ (matched + 1, failure)
      | err (_, msg) ↦ (matched, some msg)
    ]

abbrev pub Closest : Type 0
Closest = Option (ℕ × Role × Str)

unfoldable pub is_closer : Closest → ℕ → Bool
is_closer none matched = true
is_closer (some (best, _, _)) matched = ltb best matched

unfoldable pub rejection : Closest → ServiceError
rejection none = measurement_policy_rejected (lit "the measurement policy has no entries")
rejection (some (_, role, failure)) =
    measurement_policy_rejected
      (failure ++ (lit " (closest policy entry: " ++ (as_str role ++ lit ")")))

-- The loop over the entries: the first that matches in every register.
unfoldable pub match_entries : Closest → List PolicyEntry → List Str → Service Role
match_entries closest [] registers = err (rejection closest)
match_entries closest (entry ∷ entries) registers =
    let (matched, failure) = scan_registers (register_fields entry) registers in
    elim failure [
      | none ↦ ok entry.role
      | some msg ↦
          match_entries
            (if is_closer closest matched then some (matched, entry.role, msg) else closest) entries
            registers
    ]

unfoldable pub enforce_attestation_policy : AttestationPolicy → VerificationResult → Service Role
enforce_attestation_policy policy result =
    if not policy.enforce_measurement_policy then ok node else (do
      enforce_tcb_status policy result
      match_entries none policy.entries (quote_registers result.body))
