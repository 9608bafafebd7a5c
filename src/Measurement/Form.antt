-- ===== src/Measurement/Form.antt =====
-- mero-kms/src/util.rs and mero-kms/src/measurement.rs: the one form of a measurement is read as
-- itself, so values that were read compare by their texts.
use mero_tee.Prelude.{
  ℕ, ◌*◌, ◌≡◌, refl, sym, ◌∙◌, ap, subst, true, false, [], ◌∷◌, all, ◌==◌, list_eq_iff, ◌↔◌, arith,
}
use mero_tee.Text.{Str, trim, trim_0x, to_ascii_lowercase, len, is_ascii_hexdigit, is_whitespace}
use mero_tee.Errors.{ok}
use mero_tee.Measurement.{
  measurement_bytes, HexMeasurement, normalized, normalize_hex, parse, matches_raw,
}
use mero_tee.Text.Trim.{trim_matches-kept}
use mero_tee.Text.Laws.{to_ascii_lowercase_idem}

hexdigit-not_whitespace : (c : ℕ) → is_ascii_hexdigit c ≡ true → is_whitespace c ≡ false
unfolding is_ascii_hexdigit is_whitespace
hexdigit-not_whitespace c h = ground arith

trim_0x-hex : (s : Str) → all is_ascii_hexdigit s ≡ true → trim_0x s ≡ s
unfolding trim_0x is_ascii_hexdigit
trim_0x-hex [] h = refl
trim_0x-hex (a ∷ []) h = refl
trim_0x-hex (a ∷ b ∷ s) h = ground arith

trim-hex : (s : Str) → all is_ascii_hexdigit s ≡ true → trim s ≡ s
unfolding trim
trim-hex s h = trim_matches-kept is_whitespace is_ascii_hexdigit hexdigit-not_whitespace s h

normalize_hex-eq-ok :
    (raw : Str) (n : ℕ) (v : Str)
    → normalize_hex raw n ≡ ok v
    → (normalized raw ≡ v) × ((len v == n * 2) ≡ true) × (all is_ascii_hexdigit v ≡ true)
unfolding normalize_hex
normalize_hex-eq-ok raw n v h = ground arith

normalized-lower : (raw : Str) → to_ascii_lowercase (normalized raw) ≡ normalized raw
unfolding normalized
normalized-lower raw = to_ascii_lowercase_idem (trim_0x (trim raw))

-- A text in the compared form is its own compared form.
normalized-fixed :
    (raw : Str)
    → all is_ascii_hexdigit (normalized raw) ≡ true
    → normalized (normalized raw) ≡ normalized raw
unfolding normalized
normalized-fixed raw h =
    ap (λ t. to_ascii_lowercase (trim_0x t)) (trim-hex (normalized raw) h)
    ∙ ap to_ascii_lowercase (trim_0x-hex (normalized raw) h)
    ∙ normalized-lower raw

-- What `normalize_hex` returns, it returns unchanged when it is given it again.
pub normalize_hex_idem :
    (raw : Str) (n : ℕ) (v : Str) → normalize_hex raw n ≡ ok v → normalize_hex v n ≡ ok v
unfolding normalize_hex
normalize_hex_idem raw n v h =
    let (form, size, hex) = normalize_hex-eq-ok raw n v h in
    let fixed =
      subst (λ t. all is_ascii_hexdigit t ≡ true → normalized t ≡ t) form (normalized-fixed raw)
        hex in
    rw (fixed, size, hex) refl

parse-eq-ok :
    (raw : Str) (m : HexMeasurement)
    → parse raw ≡ ok m
    → normalize_hex raw measurement_bytes ≡ ok m.value
unfolding parse normalize_hex
parse-eq-ok raw m h = ground arith

parse-of_form :
    (raw v : Str)
    → normalize_hex raw measurement_bytes ≡ ok v
    → parse raw ≡ ok (record { value = v })
unfolding parse normalize_hex
parse-of_form raw v h = ground arith

matches_raw_iff :
    (m : HexMeasurement) (raw : Str) → (matches_raw m raw ≡ true) ↔ (m.value ≡ normalized raw)
unfolding matches_raw
matches_raw_iff m raw = list_eq_iff m.value (normalized raw)

-- A measurement that was parsed matches the text it was parsed from and its own text, and its own
-- text parses to it again.
pub parse-value :
    (raw : Str) (m : HexMeasurement)
    → parse raw ≡ ok m
    → (parse m.value ≡ ok m) × (matches_raw m raw ≡ true) × (matches_raw m m.value ≡ true)
parse-value raw m h =
    let whole = parse-eq-ok raw m h in
    let again = normalize_hex_idem raw measurement_bytes m.value whole in
    let (form, _, _) = normalize_hex-eq-ok raw measurement_bytes m.value whole in
    let (form', _, _) = normalize_hex-eq-ok m.value measurement_bytes m.value again in
    (
      parse-of_form m.value m.value again,
      (matches_raw_iff m raw).1 (sym form),
      (matches_raw_iff m m.value).1 (sym form'),
    )
