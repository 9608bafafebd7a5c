-- ===== src/Gate/Server.antt =====
-- mero-inference-gate/src/server.rs: the gate's HTTP layer. What it meets outside (the quote, the
-- helper's run, the model server's answers) are arguments; the call it makes is returned beside the
-- response.
pub mod Start
pub mod Attested
pub mod Guarded
use mero_tee.Prelude.{
  ℕ, Bool, true, false, not, ◌&&◌, ◌||◌, Option, none, some, List, [], ◌∷◌, ◌++◌, any, filter,
  is_empty, length, leb, ltb, list_eq, if◌then◌else◌,
}
use mero_tee.Text.{Str, Bytes, lit, as_bytes, starts_with, trim_end_slashes}
use mero_tee.Errors.{Result, ok, err, ensure, ok_or, map_err, ◌>>=◌, ◌>>◌}
use mero_tee.Gate.{Libraries, SerdeJson, HelperRun}
use mero_tee.Gate.Tokens.{Tokens, allows}
use mero_tee.Gate.Binding.{AttestRequest, AttestResponse, binding, report_data, parse_nonce}
use mero_tee.Gate.Evidence.{GpuEvidence, collect_evidence}

abbrev pub max_request_bytes : ℕ
max_request_bytes = 33554432

-- A header's name, in the lower case that `HeaderName` keeps, and its value.
abbrev pub Header : Type 0
Header = Str × Bytes

abbrev pub dropped_request_headers : List Str
dropped_request_headers =
    lit "host"
    ∷ lit "authorization"
    ∷ lit "connection"
    ∷ lit "content-length"
    ∷ lit "transfer-encoding"
    ∷ lit "te"
    ∷ lit "upgrade"
    ∷ lit "proxy-authorization"
    ∷ []

abbrev pub dropped_response_headers : List Str
dropped_response_headers =
    lit "connection" ∷ lit "transfer-encoding" ∷ lit "content-length" ∷ lit "upgrade" ∷ []

pub record Gate : Type 0 where
  pub gpu : GpuEvidence
  pub spki_sha256 : Bytes
  pub config_json : Str
  pub served_model : Option Str
  pub tokens : Tokens
  pub upstream : Str

-- The served model that a configuration names; the measurement VM has no configuration.
unfoldable pub served_model_of : SerdeJson → Str → Result Str (Option Str)
served_model_of j [] = ok none
served_model_of j (c ∷ text) = do
  config ← map_err (λ e. lit "config.json is not JSON: " ++ e) (j.from_str (c ∷ text))
  name ←
      ok_or
        (elim (j.get config (lit "servedModelName")) [ none ↦ none | some field ↦ j.as_text field ])
        (lit "config.json names no servedModelName")
  ok (some name)

-- Whether the HTTP client can be built is an argument.
unfoldable pub new_gate :
    SerdeJson → Result Str (Unit {0}) → GpuEvidence → Bytes → Str → Tokens → Str → Result Str Gate
new_gate j client gpu spki_sha256 config_json tokens upstream = do
  served_model ← served_model_of j config_json
  client
  ok record {
    gpu = gpu;
    spki_sha256 = spki_sha256;
    config_json = config_json;
    served_model = served_model;
    tokens = tokens;
    upstream = trim_end_slashes upstream;
  }

unfoldable pub config_digest_of : Libraries → Gate → Bytes
config_digest_of l gate = l.crypto.sha256 (as_bytes gate.config_json)

pub data Body : Type 0 where
  error_body : (code message : Str) → Body
  measure_only : Body
  health_body : (status model : Str) → Body
  attest_body : AttestResponse → Body
  streamed : Bytes → Body

pub record Response : Type 0 where
  pub status : ℕ
  pub headers : List Header
  pub body : Body

unfoldable pub error : ℕ → Str → Str → Response
error status code message = record { status = status; headers = []; body = error_body code message }

unfoldable pub answer_json : Body → Response
answer_json body = record { status = 200; headers = []; body = body }

-- The model server's answer to `/health`, if it came: its status.
unfoldable pub is_success : Option ℕ → Bool
is_success none = false
is_success (some status) = leb 200 status && ltb status 300

unfoldable pub health : (Str → Option ℕ) → Gate → Response
health get_status gate = elim gate.served_model [
  | none ↦ answer_json measure_only
  | some model ↦ answer_json (
      health_body
        (if is_success (get_status (gate.upstream ++ lit "/health"))
          then lit "ok"
          else lit "starting")
        model)
]

unfoldable pub is_none : Option Str → Bool
is_none none = true
is_none (some model) = false

-- The evidence of an answer: without a model, an answer does without it.
unfoldable pub evidence_or : Gate → Result Str (Option Str) → Result Response (Option Str)
evidence_or gate (ok gpu_json) = ok gpu_json
evidence_or gate (err message) =
    if is_none gate.served_model then ok none else err (error 503 (lit "gpu_evidence") message)

-- How the blocking call for a quote ended: its own result, or why it did not run.
abbrev pub Quoted : Type 0
Quoted = Result Str (Result Str Bytes)

unfoldable pub quote_or : Quoted → Result Response Bytes
quote_or (ok (ok quote)) = ok quote
quote_or (ok (err message)) = err (error 503 (lit "quote") message)
quote_or (err e) = err (error 500 (lit "quote") e)

-- `slots_open` is false when the semaphore was closed.
unfoldable pub attest_request :
    Libraries
    → (Str → Str → HelperRun)
    → (Bytes → Quoted)
    → Bool
    → Gate
    → AttestRequest
    → Result Response AttestResponse
attest_request l run quoter slots_open gate request = do
  nonce ← map_err (error 400 (lit "bad_nonce")) (parse_nonce l.crypto request.nonce_hex)
  ensure slots_open (error 503 (lit "closing") (lit "the gate is shutting down"))
  gpu_json ← evidence_or gate (collect_evidence l run gate.gpu (l.crypto.hex_encode nonce))
  let config_digest = config_digest_of l gate
  let report = report_data nonce (binding l.crypto gate.spki_sha256 config_digest gpu_json)
  quote ← quote_or (quoter report)
  ok record {
    quote_b64 = l.crypto.base64_encode quote;
    report_data_hex = l.crypto.hex_encode report;
    tls_spki_sha256 = l.crypto.hex_encode gate.spki_sha256;
    config_json = gate.config_json;
    config_digest = l.crypto.hex_encode config_digest;
    gpu_json = gpu_json;
  }

-- `return error(..)` or the answer, as one response.
unfoldable pub attest :
    Libraries → (Str → Str → HelperRun) → (Bytes → Quoted) → Bool → Gate → AttestRequest → Response
attest l run quoter slots_open gate request =
    elim (attest_request l run quoter slots_open gate request) [
      | ok answer ↦ answer_json (attest_body answer)
      | err response ↦ response
    ]

unfoldable pub is_dropped : List Str → Header → Bool
is_dropped dropped (name, value) = any (list_eq name) dropped

unfoldable pub copy_headers : List Header → List Header → List Str → List Header
copy_headers [] to dropped = to
copy_headers (h ∷ from) to dropped =
    let rest = copy_headers from (to ++ h ∷ []) dropped in
    let without = copy_headers from to dropped in if is_dropped dropped h then without else rest

-- `headers().get(name)`: the first value.
unfoldable pub get_header : Str → List Header → Option Bytes
get_header name [] = none
get_header name ((n, value) ∷ headers) =
    let rest = get_header name headers in if list_eq name n then some value else rest

-- A request, with the path and query of its URI; the body is missing when reading it failed.
pub record Request : Type 0 where
  pub method : Str
  pub path : Str
  pub path_and_query : Option Str
  pub headers : List Header
  pub body : Option Bytes

-- What the gate gives to `client.request(method, target).headers(..).body(..)`. The target is a text
-- that the client parses to a URL itself.
pub record ClientCall : Type 0 where
  pub method : Str
  pub target : Str
  pub headers : List Header
  pub body : Bytes

pub record UpstreamAnswer : Type 0 where
  pub status : ℕ
  pub headers : List Header
  pub body : Bytes

-- `to_bytes(body, limit)`
unfoldable pub read_body : Option Bytes → Option Bytes
read_body none = none
read_body (some body) = if leb (length body) max_request_bytes then some body else none

unfoldable pub path_or : Str → Option Str → Str
path_or path none = path
path_or path (some both) = both

-- The token that the request shows.
unfoldable pub authorization_of : Libraries → Request → Option Str
authorization_of l request = elim (get_header (lit "authorization") request.headers) [
  | none ↦ none
  | some value ↦ l.header_text value
]

abbrev pub unauthorized_response : Response
unauthorized_response = record {
  status = 401;
  headers = (lit "www-authenticate", lit "Bearer") ∷ [];
  body = error_body (lit "unauthorized") (lit "a valid access token is required");
}

-- The call of the client that `proxy` makes, or the response it gives without one.
unfoldable pub admit : Libraries → Gate → Request → Result Response ClientCall
admit l gate request = do
  ensure (starts_with (lit "/v1/") request.path && not (is_none gate.served_model))
      (error 404 (lit "not_found") (lit "no such route"))
  ensure (allows l.crypto gate.tokens (authorization_of l request)) unauthorized_response
  body ←
      ok_or (read_body request.body) (error 413 (lit "too_large") (lit "the request is too large"))
  ok record {
    method = request.method;
    target = gate.upstream ++ path_or request.path request.path_and_query;
    headers = copy_headers request.headers [] dropped_request_headers;
    body = body;
  }

unfoldable pub pass_back : Result Str UpstreamAnswer → Response
pass_back (err e) = error 502 (lit "upstream") (lit "the model server is not answering yet")
pass_back (ok answer) = record {
  status = answer.status;
  headers = copy_headers answer.headers [] dropped_response_headers;
  body = streamed answer.body;
}

-- The call of the client that the proxy makes, if any, and the response. `send` stands for reqwest:
-- the parsing of the target, the sending, the redirects it follows, and the answer it ends with.
unfoldable pub proxy :
    Libraries
    → (ClientCall → Result Str UpstreamAnswer)
    → Gate
    → Request
    → Option ClientCall × Response
proxy l send gate request = elim (admit l gate request) [
  | err response ↦ (none, response)
  | ok call ↦ (some call, pass_back (send call))
]
