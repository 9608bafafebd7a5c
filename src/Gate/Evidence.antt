-- ===== src/Gate/Evidence.antt =====
-- mero-inference-gate/src/gpu.rs: NVIDIA's evidence for a nonce.
use mero_tee.Prelude.{
  ℕ, Bool, true, false, not, Option, none, some, List, ◌++◌, is_empty, leb, list_eq,
}
use mero_tee.Text.{Str, lit, trim, len, replace}
use mero_tee.Errors.{Result, ok, err, ensure, ok_or, ◌>>=◌, ◌>>◌}
use mero_tee.Gate.{Libraries, SerdeJson, HelperRun, cannot_spawn, timed_out, cannot_wait, exited}

abbrev pub max_evidence_bytes : ℕ
max_evidence_bytes = 1048576

pub data GpuEvidence : Type 0 where
  no_gpu : GpuEvidence
  helper : Str → GpuEvidence
  template : Str → GpuEvidence

-- What the helper printed, if it ran to a good end.
unfoldable pub helper_output : Libraries → Str → HelperRun → Result Str Str
helper_output l path (cannot_spawn e) = err (lit "cannot run " ++ (path ++ (lit ": " ++ e)))
helper_output l path timed_out = err (path ++ lit " took over 60s")
helper_output l path (cannot_wait e) = err (path ++ (lit ": " ++ e))
helper_output l path (exited false status stdout stderr) =
    err (path ++ (lit " failed (" ++ (status ++ (lit "): " ++ trim stderr))))
helper_output l path (exited true status stdout stderr) =
    ok_or (l.from_utf8 stdout) (lit "GPU evidence is not UTF-8")

module _ (j : SerdeJson) where
  -- `value.get("nonce").and_then(|n| n.as_str()) == Some(nonce_hex)`
  text_is : Option Str → Str → Bool
  text_is none expected = false
  text_is (some text) expected = list_eq text expected

  field_text : j.Value → Str → Option Str
  field_text value name = elim (j.get value name) [ none ↦ none | some field ↦ j.as_text field ]

  unfoldable pub names_nonce : j.Value → Str → Bool
  unfolding text_is field_text
  names_nonce value nonce_hex = text_is (field_text value (lit "nonce")) nonce_hex

  has_items : Option (List j.Value) → Bool
  has_items none = false
  has_items (some items) = not (is_empty items)

  unfoldable pub lists_evidence : j.Value → Bool
  unfolding has_items
  lists_evidence value =
      has_items
        (elim (j.get value (lit "evidence_list")) [ none ↦ none | some list ↦ j.as_array list ])

  -- The checks of the evidence's text.
  unfoldable pub check_evidence : Str → Str → Result Str (Option Str)
  check_evidence nonce_hex text = do
    ensure (leb (len text) max_evidence_bytes) (lit "GPU evidence is too large")
    value ← elim (j.from_str text) [
      | ok value ↦ ok value
      | err e ↦ err (lit "GPU evidence is not JSON")
    ]
    ensure (names_nonce value nonce_hex) (lit "GPU evidence is not for this nonce")
    ensure (lists_evidence value) (lit "GPU evidence lists no GPU")
    ok (some text)

-- The runs of the helper, by its path and its argument, are an argument.
unfoldable pub collect_evidence :
    Libraries → (Str → Str → HelperRun) → GpuEvidence → Str → Result Str (Option Str)
collect_evidence l run no_gpu nonce_hex = ok none
collect_evidence l run (template text) nonce_hex =
    check_evidence l.json nonce_hex (trim (replace text (lit "{nonce}") nonce_hex))
collect_evidence l run (helper path) nonce_hex = do
  text ← helper_output l path (run path nonce_hex)
  check_evidence l.json nonce_hex (trim text)
