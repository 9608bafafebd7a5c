-- ===== src/Gate/Server/Start.antt =====
-- mero-inference-gate/src/main.rs: what the gate starts with. The environment, the files, the
-- parser of the listen address and the TLS key are arguments.
use mero_tee.Prelude.{Option, none, some, [], ◌++◌, if◌then◌else◌, list_eq}
use mero_tee.Text.{Str, Bytes, lit}
use mero_tee.Errors.{Result, ok, err, ok_or, map_err, ◌>>=◌}
use mero_tee.Env.{Env, var_ok, IoError, not_found, other}
use mero_tee.Config.{SocketAddr, unwrap_or}
use mero_tee.Gate.{Libraries}
use mero_tee.Gate.Tokens.{parse_tokens}
use mero_tee.Gate.Evidence.{GpuEvidence, no_gpu, helper}
use mero_tee.Gate.Server.{Gate, new_gate}

unfoldable pub env_or : Env → Str → Str → Str
env_or env name default = unwrap_or (var_ok env name) default

-- The text of a file by its path.
abbrev pub Files : Type 0
Files = Str → Result IoError Str

unfoldable pub read_optional : Files → Str → Result Str (Option Str)
read_optional files path = elim (files path) [
  | ok text ↦ ok (some text)
  | err not_found ↦ ok none
  | err (other e) ↦ err (lit "reading " ++ path)
]

-- `unwrap_or_default()` of a text.
unfoldable pub read_or_empty : Files → Str → Result Str Str
read_or_empty files path = do text ← read_optional files path; ok (unwrap_or text [])

abbrev pub config_file : Env → Str
config_file env = env_or env (lit "GATE_CONFIG_FILE") (lit "/run/mero-inference/config.json")

abbrev pub tokens_file : Env → Str
tokens_file env = env_or env (lit "GATE_TOKENS_FILE") (lit "/run/mero-inference/access-tokens")

evidence_from : Str → GpuEvidence
evidence_from path = if list_eq path (lit "none") then no_gpu else helper path

-- `main`, up to the sockets: the address to listen at, and the gate.
unfoldable pub start :
    Libraries
    → (Str → Option SocketAddr)
    → Env
    → Files
    → Result Str Bytes
    → Result Str (Unit {0})
    → Result Str (SocketAddr × Gate)
unfolding evidence_from
start l parse_addr env files spki client = do
  listen ←
      ok_or (parse_addr (env_or env (lit "GATE_LISTEN_ADDR") (lit "0.0.0.0:8443")))
        (lit "GATE_LISTEN_ADDR")
  config_json ← read_or_empty files (config_file env)
  token_text ← read_or_empty files (tokens_file env)
  tokens ← parse_tokens l.crypto token_text
  let gpu =
      evidence_from
        (env_or env (lit "GATE_GPU_EVIDENCE") (lit "/usr/local/lib/mero-inference/gpu-evidence"))
  spki_sha256 ← map_err (λ e. lit "TLS key: " ++ e) spki
  gate ←
      new_gate l.json client gpu spki_sha256 config_json tokens
        (env_or env (lit "GATE_UPSTREAM") (lit "http://127.0.0.1:8000"))
  ok (listen, gate)
