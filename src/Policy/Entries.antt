-- ===== src/Policy/Entries.antt =====
-- mero-kms/src/policy.rs and mero-kms/src/handlers/get_key.rs: the loop over the entries of the policy
-- and the check that no two of them can match one quote.
use mero_tee.Prelude.{
  ◌≡◌, refl, ap, sym, ◌∙◌, ◌⊎◌, true, false, none, some, List, [], ◌∷◌, ◌++◌, if◌then◌else◌, any,
  All, length, arith, inl, inr, Bool-cases, Option-cases, subst,
}
use mero_tee.Text.{Str}
use mero_tee.Errors.{ok, >>=-eq-ok}
use mero_tee.Policy.{
  Role, PolicyEntry, AttestationPolicy, VerificationResult, Field, register_fields, quote_registers,
  check_measurement, scan_registers, match_entries, Closest, is_closer, enforce_tcb_status,
  enforce_attestation_policy, contains, fields_overlap, entries_overlap, find_overlap, no_overlap,
  check_entry, check_entries, check_fields, validate_policy_requirements,
}
use mero_tee.Policy.Registers.{Allows, scan-Allows, Allows-scan, both_allow}

-- The item stands in the list.
abbrev pub Among : PolicyEntry → List PolicyEntry → Type 0
Among x [] = ⊥
Among x (y ∷ ys) = (y ≡ x) ⊎ Among x ys

-- A role that the loop answers is that of an entry of the policy that allows every register.
pub match_entries_sound :
    (closest : Closest) (entries : List PolicyEntry) (registers : List Str) {role : Role}
    → match_entries closest entries registers ≡ ok role
    → (e : PolicyEntry) × Among e entries × (e.role ≡ role) × Allows (register_fields e) registers
unfolding match_entries
match_entries_sound closest [] registers h = cc
match_entries_sound closest (entry ∷ entries) registers h =
    elim (Option-cases ((scan_registers (register_fields entry) registers).1)) [
      | inl matched ↦
          (entry, inl refl, ground arith, scan-Allows (register_fields entry) registers matched)
      | inr (msg, failed) ↦
          let (e, among, same, fits) =
            match_entries_sound
              (if is_closer closest (scan_registers (register_fields entry) registers).0
                then some ((scan_registers (register_fields entry) registers).0, entry.role, msg)
                else closest)
              entries registers (ground arith) in
          (e, inr among, same, fits)
    ]

no_overlap-eq :
    (earlier : List PolicyEntry) (e : PolicyEntry)
    → find_overlap earlier e ≡ none
    → All (λ d. entries_overlap d e ≡ false) earlier
unfolding find_overlap
no_overlap-eq [] e h = tt
no_overlap-eq (d ∷ earlier) e h = elim (Bool-cases (entries_overlap d e)) [
  | inl overlaps ↦ absurd (ground arith)
  | inr apart ↦ (apart, no_overlap-eq earlier e (ground arith))
]

check_entry-eq :
    (earlier : List PolicyEntry) (e : PolicyEntry)
    → check_entry earlier e ≡ ok tt
    → All (λ d. entries_overlap d e ≡ false) earlier
unfolding check_entry no_overlap
check_entry-eq earlier e h = no_overlap-eq earlier e (elim (Option-cases (find_overlap earlier e)) [
  | inl apart ↦ apart
  | inr (d, found) ↦ elim (Bool-cases (any (λ d. mero_tee.Policy.role_eq d.role e.role) earlier)) [
    | inl repeated ↦ absurd (ground arith)
    | inr fresh ↦ absurd (ground arith)
  ]
])

All-prefix {ℓ} :
    {A : Type ℓ} (P : A → Type 0) (xs ys : List A) → All P (xs ++ ys) → All P xs × All P ys
All-prefix P [] ys h = (tt, h)
All-prefix P (x ∷ xs) ys (h, hs) = let (a, b) = All-prefix P xs ys hs in ((h, a), b)

-- In a validated policy an entry overlaps none before it.
apart :
    (earlier entries : List PolicyEntry) (e : PolicyEntry)
    → check_entries earlier entries ≡ ok tt
    → Among e entries
    → All (λ d. entries_overlap d e ≡ false) earlier
unfolding check_entries
apart earlier [] e h among = absurd among
apart earlier (d ∷ entries) e h among =
    let (u, first, rest) =
      >>=-eq-ok (check_entry earlier d) (λ _. check_entries (earlier ++ d ∷ []) entries) h in
    elim among [
      | inl same ↦ rw (sym same) (check_entry-eq earlier d first)
      | inr later ↦
          (All-prefix _ earlier (d ∷ []) (apart (earlier ++ d ∷ []) entries e rest later)).0
    ]

match_entries-step :
    (closest : Closest) (d : PolicyEntry) (entries : List PolicyEntry) (registers : List Str)
    → let scanned = scan_registers (register_fields d) registers in
      (scanned.1 ≡ none → match_entries closest (d ∷ entries) registers ≡ ok d.role)
      × ((msg : Str)
          → scanned.1 ≡ some msg
          → match_entries closest (d ∷ entries) registers
            ≡ match_entries
                (if is_closer closest scanned.0 then some (scanned.0, d.role, msg) else closest)
                entries
                registers)
unfolding match_entries
match_entries-step closest d entries registers = (λ h. ground arith, λ msg h. ground arith)

pub match_entries_complete :
    (closest : Closest) (earlier entries : List PolicyEntry) (registers : List Str)
    (e : PolicyEntry)
    → length registers ≡ 5
    → check_entries earlier entries ≡ ok tt
    → Among e entries
    → Allows (register_fields e) registers
    → match_entries closest entries registers ≡ ok e.role
unfolding check_entries entries_overlap
match_entries_complete closest earlier [] registers e five h among fits = absurd among
match_entries_complete closest earlier (d ∷ entries) registers e five h among fits =
    let (u, first, rest) =
      >>=-eq-ok (check_entry earlier d) (λ _. check_entries (earlier ++ d ∷ []) entries) h in
    let scanned = scan_registers (register_fields d) registers in
    let step = match_entries-step closest d entries registers in
    elim (Option-cases scanned.1) [
      | inl matched ↦ elim among [
        | inl same ↦ step.0 matched ∙ ap (λ d. ok d.role) same
        | inr later ↦
            let overlaps : fields_overlap (register_fields d) (register_fields e) ≡ true =
              both_allow (register_fields d) (register_fields e) registers
                (scan-Allows (register_fields d) registers matched) fits
                (unfold register_fields in omega arith) in
            let clear =
              (All-prefix _ earlier (d ∷ [])
                (apart (earlier ++ d ∷ []) entries e rest later)).1.0 in
            absurd (cc)
      ]
      | inr (msg, failed) ↦ elim among [
        | inl same ↦
            let matched =
              Allows-scan (register_fields d) registers
                (subst (λ x. Allows (register_fields x) registers) (sym same) fits) in
            absurd cc
        | inr later ↦
            step.1 msg failed
            ∙ match_entries_complete
                (if is_closer closest scanned.0 then some (scanned.0, d.role, msg) else closest)
                (earlier ++ d ∷ []) entries registers e five rest later fits
      ]
    ]
