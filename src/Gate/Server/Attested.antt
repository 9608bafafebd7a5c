-- ===== src/Gate/Server/Attested.antt =====
-- mero-inference-gate/src/server.rs, `attest`: what a client can check of an answer.
use mero_tee.Prelude.{
  ◌≤◌, ◌≡◌, refl, ◌∙◌, ap, ◌⊎◌, inl, inr, ◌≢◌, Bool, true, Option, none, some, ◌++◌, arith,
  Option-cases,
}
use mero_tee.Text.{Str, Bytes, as_bytes, len}
use mero_tee.Errors.{Result, ok, err, Result-cases, >>=-eq-ok}
use mero_tee.Crypto.{Crypto, CodecLaws}
use mero_tee.Gate.{Libraries, SerdeJson, HelperRun}
use mero_tee.Gate.Binding.{
  AttestRequest, AttestResponse, binding, report_data, parse_nonce, gpu_bytes, gate_attest_domain,
}
use mero_tee.Gate.Evidence.{
  GpuEvidence, no_gpu, helper, template, collect_evidence, check_evidence, names_nonce,
  lists_evidence, max_evidence_bytes, helper_output,
}
use mero_tee.Gate.Server.{
  Gate, Quoted, quote_or, evidence_or, config_digest_of, attest_request, is_none,
}

-- What a client computes from an answer and its own nonce: the report data of the quote.
pub recompute : Crypto → Bytes → AttestResponse → Option Bytes
recompute c nonce r = elim (c.hex_decode r.tls_spki_sha256) [
  | none ↦ none
  | some spki ↦ some (
      nonce
      ++ c.sha256 (
          gate_attest_domain
          ++ (spki ++ (c.sha256 (as_bytes r.config_json) ++ c.sha256 (gpu_bytes r.gpu_json)))))
]

-- The text is evidence for this nonce.
pub IsEvidence : SerdeJson → Str → Str → Type 0
IsEvidence j nonce_hex text =
    (len text ≤ max_evidence_bytes)
    × (value : j.Value) × (j.from_str text ≡ ok value)
    × (names_nonce j value nonce_hex ≡ true)
    × (lists_evidence j value ≡ true)

check_evidence_sound :
    (j : SerdeJson) (nonce_hex text : Str) (out : Option Str)
    → check_evidence j nonce_hex text ≡ ok out
    → (out ≡ some text) × IsEvidence j nonce_hex text
unfolding check_evidence IsEvidence
check_evidence_sound j nonce_hex text out h = elim (Result-cases (j.from_str text)) [
  | inl (value, parsed) ↦ (ground arith, (ground arith, value, parsed, ground arith, ground arith))
  | inr (e, failed) ↦ absurd (ground arith)
]

collect_evidence_sound :
    (l : Libraries) (run : Str → Str → HelperRun) (gpu : GpuEvidence) (nonce_hex : Str)
    (out : Option Str)
    → collect_evidence l run gpu nonce_hex ≡ ok out
    → ((gpu ≡ no_gpu) × (out ≡ none))
      ⊎ ((text : Str) × (out ≡ some text) × IsEvidence l.json nonce_hex text)
unfolding collect_evidence
collect_evidence_sound l run no_gpu nonce_hex out h = inl (refl, cc)
collect_evidence_sound l run (template text) nonce_hex out h =
    (let (same, good) = check_evidence_sound l.json nonce_hex _ out h in inr (_, same, good))
collect_evidence_sound l run (helper path) nonce_hex out h =
    let (text, _, checked) = >>=-eq-ok (helper_output l path (run path nonce_hex)) _ h in
    let (same, good) = check_evidence_sound l.json nonce_hex _ out checked in inr (_, same, good)

evidence_or-serving :
    (found : Result Str (Option Str)) (gate : Gate) (gpu_json : Option Str)
    → gate.served_model ≢ none
    → evidence_or gate found ≡ ok gpu_json
    → found ≡ ok gpu_json
unfolding evidence_or is_none
evidence_or-serving (ok found) gate gpu_json serves h = cc
evidence_or-serving (err e) gate gpu_json serves h = elim (Option-cases gate.served_model) [
  | inl unserved ↦ absurd (serves unserved)
  | inr (model, served) ↦ absurd (ground arith)
]

module _ (l : Libraries) (run : Str → Str → HelperRun) (quoter : Bytes → Quoted) (slots_open : Bool)
    (gate : Gate) (request : AttestRequest) (r : AttestResponse)
    (h : attest_request l run quoter slots_open gate request ≡ ok r) where
  -- The bytes that the quote was asked for.
  reported : Bytes → Bytes
  reported nonce =
      report_data nonce (binding l.crypto gate.spki_sha256 (config_digest_of l gate) r.gpu_json)

  nonce_parsed : (nonce : Bytes) × (parse_nonce l.crypto request.nonce_hex ≡ ok nonce)
  unfolding attest_request
  nonce_parsed = elim (Result-cases (parse_nonce l.crypto request.nonce_hex)) [
    | inl found ↦ found
    | inr (e, failed) ↦ absurd (ground arith)
  ]

  module _ (nonce : Bytes) (parsed : parse_nonce l.crypto request.nonce_hex ≡ ok nonce) where
    evidence_collected :
        evidence_or gate (collect_evidence l run gate.gpu (l.crypto.hex_encode nonce))
        ≡ ok r.gpu_json
    unfolding attest_request
    evidence_collected = ground arith

    quote_made :
        (quote : Bytes) × (quoter (reported nonce) ≡ ok (ok quote))
        × (r.quote_b64 ≡ l.crypto.base64_encode quote)
    unfolding attest_request reported quote_or
    quote_made = elim (Result-cases (quoter (reported nonce))) [
      | inr (e, failed) ↦ absurd (ground (arith, evidence_collected))
      | inl (inner, ran) ↦ elim (Result-cases inner) [
        | inr (e, failed) ↦ absurd (ground (arith, evidence_collected))
        | inl (quote, made) ↦ (quote, ground arith, ground (arith, evidence_collected))
      ]
    ]

    fields_answered :
        (r.report_data_hex ≡ l.crypto.hex_encode (reported nonce))
        × (r.tls_spki_sha256 ≡ l.crypto.hex_encode gate.spki_sha256)
        × (r.config_json ≡ gate.config_json)
        × (r.config_digest ≡ l.crypto.hex_encode (config_digest_of l gate))
    unfolding attest_request reported
    fields_answered = ground arith

  recompute-eq :
      (c : Crypto) (nonce spki : Bytes)
      → c.hex_decode r.tls_spki_sha256 ≡ some spki
      → recompute c nonce r
        ≡ some (report_data nonce (binding c spki (c.sha256 (as_bytes r.config_json)) r.gpu_json))
  unfolding recompute report_data binding
  recompute-eq c nonce spki decoded = rw (recompute, decoded) refl

  recomputed :
      CodecLaws l.crypto
      → (nonce : Bytes) → parse_nonce l.crypto request.nonce_hex ≡ ok nonce
      → recompute l.crypto nonce r ≡ some (reported nonce)
  unfolding reported config_digest_of
  recomputed laws nonce parsed =
      let (_, spki, config, _) = fields_answered nonce parsed in
      recompute-eq l.crypto nonce gate.spki_sha256
        (ap l.crypto.hex_decode spki ∙ laws.hex gate.spki_sha256)
      ∙ ap
          (λ text. some (
            report_data nonce
              (binding l.crypto gate.spki_sha256 (l.crypto.sha256 (as_bytes text)) r.gpu_json)))
          config

  -- A client that recomputes the report data from the answer alone, with the nonce it chose, gets
  -- the very bytes that the quote of the answer was made for, and that the answer shows.
  pub attest_request-recompute :
      CodecLaws l.crypto
      → (nonce : Bytes) × (quote : Bytes) × (report : Bytes) × (parse_nonce l.crypto
            request.nonce_hex
          ≡ ok nonce)
        × (recompute l.crypto nonce r ≡ some report)
        × (quoter report ≡ ok (ok quote))
        × (l.crypto.base64_decode r.quote_b64 ≡ ok quote)
        × (l.crypto.hex_decode r.report_data_hex ≡ some report)
  attest_request-recompute laws =
      let (nonce, parsed) = nonce_parsed in
      let (quote, made, shown) = quote_made nonce parsed in
      let (data_shown, _, _, _) = fields_answered nonce parsed in
      (
        nonce,
        quote,
        reported nonce,
        parsed,
        recomputed laws nonce parsed,
        made,
        ap l.crypto.base64_decode shown ∙ laws.base64 quote,
        ap l.crypto.hex_decode data_shown ∙ laws.hex (reported nonce),
      )

  -- A gate that serves a model and has a GPU answers only with evidence for the client's nonce.
  pub attest_request-IsEvidence :
      gate.served_model ≢ none
      → gate.gpu ≢ no_gpu
      → (nonce : Bytes) × (text : Str) × (parse_nonce l.crypto request.nonce_hex ≡ ok nonce)
        × (r.gpu_json ≡ some text)
        × IsEvidence l.json (l.crypto.hex_encode nonce) text
  attest_request-IsEvidence serves gpu =
      let (nonce, parsed) = nonce_parsed in
      let collected =
        evidence_or-serving (collect_evidence l run gate.gpu (l.crypto.hex_encode nonce)) gate
          r.gpu_json serves (evidence_collected nonce parsed) in
      elim (collect_evidence_sound l run gate.gpu (l.crypto.hex_encode nonce) r.gpu_json
        collected) [
          | inl (none_there, _) ↦ absurd (gpu none_there)
          | inr (text, same, good) ↦ (nonce, text, parsed, same, good)
        ]
