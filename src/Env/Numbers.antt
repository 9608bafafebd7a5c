-- ===== src/Env/Numbers.antt =====
-- mero-kms/src/config/mod.rs: the decimal numbers of the environment are read as they are written.
use mero_tee.Prelude.{
  ℕ, zero, suc, ◌+◌, ◌*◌, ◌/◌, ◌%◌, ◌≤◌, ◌≡◌, refl, sym, ◌∙◌, ap, inl, inr, true, false, [], ◌∷◌,
  ltb, ◌==◌, all, arith, Bool-cases,
}
use mero_tee.Text.{Str, show_nat, digits, u64_max, trim, is_whitespace}
use mero_tee.Text.Trim.{trim_matches-kept}
use mero_tee.Errors.{ok}
use mero_tee.Env.{is_digit, parse_digits, parse_u64}

digit-next :
    (acc d : ℕ) (out : Str)
    → d ≤ 9
    → acc * 10 + d ≤ u64_max
    → parse_digits acc ((b'0' + d) ∷ out) ≡ parse_digits (acc * 10 + d) out
unfolding parse_digits is_digit
digit-next acc d out h k = ground arith

digits-small :
    (fuel n : ℕ) (out : Str) → ltb n 10 ≡ true → digits (suc fuel) n out ≡ (b'0' + n) ∷ out
unfolding digits
digits-small fuel n out h = rw (digits, h) refl

digits-large :
    (fuel n : ℕ) (out : Str)
    → ltb n 10 ≡ false
    → digits (suc fuel) n out ≡ digits fuel (n / 10) ((b'0' + n % 10) ∷ out)
unfolding digits
digits-large fuel n out h = rw (digits, h) refl

-- The digits that a number writes are read back to it, if the fuel was enough.
parse_digits-digits :
    (fuel n : ℕ) (out : Str)
    → n ≤ fuel
    → n ≤ u64_max
    → parse_digits 0 (digits fuel n out) ≡ parse_digits n out
unfolding digits
parse_digits-digits zero n out h k =
    let same : 0 * 10 + n % 10 ≡ n = omega arith in
    digit-next 0 (n % 10) out (omega arith) (omega arith) ∙ ap (λ m. parse_digits m out) same
parse_digits-digits (suc fuel) n out h k = elim (Bool-cases (ltb n 10)) [
  | inl small ↦
      let same : 0 * 10 + n ≡ n = omega arith in
      ap (parse_digits 0) (digits-small fuel n out small)
      ∙ digit-next 0 n out (ground arith) (ground arith)
      ∙ ap (λ m. parse_digits m out) same
  | inr large ↦
      let same : (n / 10) * 10 + n % 10 ≡ n = omega arith in
      ap (parse_digits 0) (digits-large fuel n out large)
      ∙ parse_digits-digits fuel (n / 10) ((b'0' + n % 10) ∷ out) (ground arith) (omega arith)
      ∙ digit-next (n / 10) (n % 10) out (omega arith) (omega arith)
      ∙ ap (λ m. parse_digits m out) same
]

-- A text that starts with a digit.
Leads : Str → Type 0
Leads s = (c : ℕ) × (rest : Str) × (s ≡ c ∷ rest) × (b'0' ≤ c)

digits-Leads : (fuel n : ℕ) (out : Str) → Leads (digits fuel n out)
unfolding Leads digits
digits-Leads zero n out = (b'0' + n % 10, out, refl, omega arith)
digits-Leads (suc fuel) n out = elim (Bool-cases (ltb n 10)) [
  | inl small ↦ (b'0' + n, out, digits-small fuel n out small, omega arith)
  | inr large ↦
      let (c, rest, same, low) = digits-Leads fuel (n / 10) ((b'0' + n % 10) ∷ out) in
      (c, rest, digits-large fuel n out large ∙ same, low)
]

parse_u64-lead : (c : ℕ) (rest : Str) → b'0' ≤ c → parse_u64 (c ∷ rest) ≡ parse_digits 0 (c ∷ rest)
unfolding parse_u64
parse_u64-lead c [] h = refl
parse_u64-lead c (d ∷ rest) h =
    let no_plus : (c == b'+') ≡ false = ground arith in rw (parse_u64, no_plus) refl

-- The decimal text of a number of 64 bits is read as that number.
pub parse_u64-show_nat : (n : ℕ) → n ≤ u64_max → parse_u64 (show_nat n) ≡ ok n
unfolding show_nat Leads
parse_u64-show_nat n h =
    let (c, rest, same, low) = digits-Leads n n [] in
    ap parse_u64 same
    ∙ parse_u64-lead c rest low
    ∙ ap (parse_digits 0) (sym same)
    ∙ parse_digits-digits n n [] (omega arith) h
    ∙ (unfold parse_digits in refl)

all-digits :
    (fuel n : ℕ) (out : Str) → all is_digit out ≡ true → all is_digit (digits fuel n out) ≡ true
unfolding digits is_digit
all-digits zero n out h = ground arith
all-digits (suc fuel) n out h = elim (Bool-cases (ltb n 10)) [
  | inl small ↦ ap (all is_digit) (digits-small fuel n out small) ∙ ground arith
  | inr large ↦
      ap (all is_digit) (digits-large fuel n out large)
      ∙ all-digits fuel (n / 10) ((b'0' + n % 10) ∷ out) (ground arith)
]

digit-not_whitespace : (c : ℕ) → is_digit c ≡ true → is_whitespace c ≡ false
unfolding is_digit is_whitespace
digit-not_whitespace c h = ground arith

-- Nothing is trimmed of it.
pub trim-show_nat : (n : ℕ) → trim (show_nat n) ≡ show_nat n
unfolding show_nat trim
trim-show_nat n =
    trim_matches-kept is_whitespace is_digit digit-not_whitespace (digits n n [])
      (all-digits n n [] refl)
