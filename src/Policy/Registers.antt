-- ===== src/Policy/Registers.antt =====
-- mero-kms/src/handlers/get_key.rs, the comparison of a quote's registers with the values that an
-- entry of the policy allows.
use mero_tee.Prelude.{
  ◌≡◌, refl, sym, ◌∙◌, true, none, List, [], ◌∷◌, list_eq, list_eq_iff, any, length, arith, inl,
  inr, Bool-cases,
}
use mero_tee.Text.{Str}
use mero_tee.Errors.{ok, Result-cases}
use mero_tee.Measurement.{HexMeasurement, matches_raw, normalized}
use mero_tee.Policy.{Field, check_measurement, scan_registers, contains, fields_overlap}

-- Every register of the quote is one of the values that the entry allows for it.
abbrev pub Allows : List Field → List Str → Type 0
Allows [] actuals = Unit {0}
Allows (f ∷ fields) [] = Unit {0}
Allows (f ∷ fields) (actual ∷ actuals) =
    (any (λ m. matches_raw m actual) f.1 ≡ true) × Allows fields actuals

check_measurement-eq :
    (allowlist : List HexMeasurement) (label raw : Str)
    → check_measurement allowlist label raw ≡ ok tt
    → any (λ m. matches_raw m raw) allowlist ≡ true
unfolding check_measurement
check_measurement-eq [] label raw h = cc
check_measurement-eq (m ∷ ms) label raw h =
    elim (Bool-cases (any (λ m. matches_raw m raw) (m ∷ ms))) [
      | inl found ↦ found
      | inr missing ↦ ground arith
    ]

check_measurement-of :
    (allowlist : List HexMeasurement) (label raw : Str)
    → any (λ m. matches_raw m raw) allowlist ≡ true
    → check_measurement allowlist label raw ≡ ok tt
unfolding check_measurement
check_measurement-of [] label raw h = cc
check_measurement-of (m ∷ ms) label raw h = ground arith

pub scan-Allows :
    (fields : List Field) (actuals : List Str)
    → (scan_registers fields actuals).1 ≡ none
    → Allows fields actuals
unfolding scan_registers
scan-Allows [] actuals h = tt
scan-Allows (f ∷ fields) [] h = tt
scan-Allows ((label, allowlist) ∷ fields) (actual ∷ actuals) h =
    elim (Result-cases (check_measurement allowlist label actual)) [
      | inl (u, fine) ↦ (
        check_measurement-eq allowlist label actual fine,
        scan-Allows fields actuals (ground arith),
      )
      | inr (e, bad) ↦ absurd (ground arith)
    ]

pub Allows-scan :
    (fields : List Field) (actuals : List Str)
    → Allows fields actuals
    → (scan_registers fields actuals).1 ≡ none
unfolding scan_registers
Allows-scan [] actuals h = refl
Allows-scan (f ∷ fields) [] h = refl
Allows-scan ((label, allowlist) ∷ fields) (actual ∷ actuals) (h, hs) =
    rw (scan_registers, check_measurement-of allowlist label actual h)
      (Allows-scan fields actuals hs)

holds :
    (value : Str) (m : HexMeasurement) (ns : List HexMeasurement)
    → matches_raw m value ≡ true
    → any (λ n. matches_raw n value) ns ≡ true
    → contains ns m ≡ true
unfolding contains matches_raw
holds value m [] same k = cc
holds value m (n ∷ ns) same k = elim (Bool-cases (list_eq n.value (normalized value))) [
  | inl also ↦
      let equal : n.value ≡ m.value =
        (list_eq_iff n.value (normalized value)).0 also
        ∙ sym ((list_eq_iff m.value (normalized value)).0 same) in
      ground (arith, (list_eq_iff n.value m.value).1 equal)
  | inr other ↦ ground (arith, holds value m ns same)
]

-- Two lists that allow the same register share a value.
shares :
    (value : Str) (ms ns : List HexMeasurement)
    → any (λ m. matches_raw m value) ms ≡ true
    → any (λ m. matches_raw m value) ns ≡ true
    → any (contains ns) ms ≡ true
shares value [] ns h k = cc
shares value (m ∷ ms) ns h k = elim (Bool-cases (matches_raw m value)) [
  | inl same ↦ ground (arith, holds value m ns same k)
  | inr other ↦ ground (arith, shares value ms ns)
]

-- Two entries that allow one quote overlap.
pub both_allow :
    (ours theirs : List Field) (registers : List Str)
    → Allows ours registers
    → Allows theirs registers
    → length ours ≡ length registers
    → fields_overlap ours theirs ≡ true
unfolding fields_overlap
both_allow [] theirs registers h k size = refl
both_allow (f ∷ ours) [] registers h k size = refl
both_allow (f ∷ ours) (g ∷ theirs) [] h k size = absurd (omega arith)
both_allow ((la, a) ∷ ours) ((lb, b) ∷ theirs) (r ∷ registers) h k size =
    ground (arith, shares r a b h.0 k.0, both_allow ours theirs registers h.1 k.1)
