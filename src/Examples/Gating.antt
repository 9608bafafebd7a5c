-- ===== src/Examples/Gating.antt =====
-- The inference gate at concrete requests.
use mero_tee.Prelude.{
  ◌&&◌, not, if◌then◌else◌, ◌≤◌, ◌≡◌, refl, ◌≢◌, ◌↔◌, ◌⊎◌, true, Option, none, some, [], ◌∷◌, ◌++◌,
  replicate, All, length,
}
use mero_tee.Text.{
  Str, Bytes, lit, starts_with, strip_prefix, trim, is_whitespace, as_bytes, split, len,
  trim_end_slashes,
}
use mero_tee.Errors.{Result, ok, err}
use mero_tee.Env.{Env, not_present, not_found, var_ok}
use mero_tee.Config.{SocketAddr, unwrap_or}
use mero_tee.Examples.{toy, toy_codec}
use mero_tee.Gate.{Libraries, SerdeJson, HelperRun, exited}
use mero_tee.Gate.Tokens.{
  Tokens, allows, contains_hash, insert_hash, insert_all, parse_hash, parse_tokens, token_values,
}
use mero_tee.Gate.Tokens.Allowed.{Shows, IsListed, allows_iff}
use mero_tee.Gate.Binding.{AttestRequest, AttestResponse, binding, parse_nonce, gpu_bytes}
use mero_tee.Crypto.{Collision}
use mero_tee.Gate.Binding.Collision.{binding-Collision}
use mero_tee.Gate.Evidence.{
  no_gpu, helper, collect_evidence, check_evidence, helper_output, names_nonce, lists_evidence,
}
use mero_tee.Gate.Server.{
  Gate, Request, Response, ClientCall, UpstreamAnswer, Quoted, attest_request, evidence_or,
  quote_or, proxy, admit, is_none, authorization_of, get_header, read_body, path_or, copy_headers,
  is_dropped, pass_back, error, unauthorized_response, dropped_request_headers, max_request_bytes,
  new_gate, served_model_of,
}
use mero_tee.Gate.Server.Attested.{
  IsEvidence, recompute, attest_request-recompute, attest_request-IsEvidence,
}
use mero_tee.Gate.Server.Guarded.{stays, proxy_guarded}
use mero_tee.Gate.Server.Start.{Files, start, read_or_empty, read_optional, env_or}
use mero_tee.Gate.Closed.{start-closed, start-measures}

-- A value is the text it was read from, and each of its own fields.
abbrev toy_json : SerdeJson
toy_json = record {
  Value = Str;
  from_str = λ s. ok s;
  get = λ v name. some v;
  as_text = λ v. some v;
  as_array = λ v. some (v ∷ []);
}

abbrev toy_libraries : Libraries
toy_libraries = record {
  crypto = toy;
  sha384 = λ b. b;
  json = toy_json;
  from_utf8 = λ b. some b;
  header_text = λ b. some b;
}

abbrev secret_hash : Bytes
secret_hash = 6 ∷ replicate 31 0

abbrev toy_tokens : Tokens
toy_tokens = record { hashes = secret_hash ∷ [] }

abbrev token_text : Str
token_text = secret_hash ++ lit ", \n"

abbrev authorization : Option Str
authorization = some (lit "Bearer secret")

tokens_parsed : parse_tokens toy token_text ≡ ok toy_tokens
unfolding parse_tokens insert_all parse_hash token_values split lit insert_hash contains_hash
    is_whitespace
tokens_parsed = refl

allows_iff_example : (allows toy toy_tokens authorization ≡ true) ↔ (
    (token : Str) × Shows authorization token
    × IsListed toy (token_values token_text) (toy.sha256 (as_bytes token)))
allows_iff_example = allows_iff toy token_text toy_tokens authorization tokens_parsed

abbrev gate : Gate
gate = record {
  gpu = helper (lit "/e");
  spki_sha256 = replicate 32 5;
  config_json = lit "m";
  served_model = some (lit "m");
  tokens = toy_tokens;
  upstream = lit "http://u";
}

abbrev run : Str → Str → HelperRun
run path nonce = exited true [] nonce []

abbrev quoter : Bytes → Quoted
quoter report = ok (ok report)

abbrev attest : AttestRequest
attest = record { nonce_hex = replicate 32 7 }

abbrev attested : Result Response AttestResponse
attested = attest_request toy_libraries run quoter true gate attest

abbrev empty_answer : AttestResponse
empty_answer = record {
  quote_b64 = [];
  report_data_hex = [];
  tls_spki_sha256 = [];
  config_json = [];
  config_digest = [];
  gpu_json = none;
}

abbrev answer : AttestResponse
answer = elim attested [ ok r ↦ r | err e ↦ empty_answer ]

attested_ok : attested ≡ ok answer
unfolding attest_request parse_nonce trim evidence_or collect_evidence helper_output check_evidence
    len names_nonce lists_evidence quote_or
attested_ok = refl

attest_request-recompute_example :
    (nonce : Bytes) × (quote : Bytes) × (report : Bytes) × (parse_nonce toy attest.nonce_hex
      ≡ ok nonce)
    × (recompute toy nonce answer ≡ some report)
    × (quoter report ≡ ok (ok quote))
    × (toy.base64_decode answer.quote_b64 ≡ ok quote)
    × (toy.hex_decode answer.report_data_hex ≡ some report)
attest_request-recompute_example =
    attest_request-recompute toy_libraries run quoter true gate attest answer attested_ok toy_codec

serves_m : gate.served_model ≢ none
serves_m h = cc

has_gpu : gate.gpu ≢ no_gpu
has_gpu h = cc

attest_request-IsEvidence_example :
    (nonce : Bytes) × (text : Str) × (parse_nonce toy attest.nonce_hex ≡ ok nonce)
    × (answer.gpu_json ≡ some text)
    × IsEvidence toy_json (toy.hex_encode nonce) text
attest_request-IsEvidence_example =
    attest_request-IsEvidence toy_libraries run quoter true gate attest answer attested_ok serves_m
      has_gpu

abbrev key : Bytes
key = replicate 32 1

abbrev digest : Bytes
digest = replicate 32 2

same_binding : binding toy key digest none ≡ binding toy key digest (some [])
unfolding binding gpu_bytes as_bytes
same_binding = refl

binding-Collision_example :
    ((key ≡ key) × (digest ≡ digest) × (gpu_bytes none ≡ gpu_bytes (some []))) ⊎ Collision toy
binding-Collision_example =
    binding-Collision toy key key digest digest none (some []) refl refl refl refl same_binding

abbrev chat : Request
chat = record {
  method = lit "POST";
  path = lit "/v1/chat";
  path_and_query = some (lit "/v1/chat?x");
  headers = (lit "authorization", lit "Bearer secret") ∷ (lit "accept", lit "a") ∷ [];
  body = some (lit "hi");
}

abbrev send : ClientCall → Result Str UpstreamAnswer
send sent = err []

abbrev sent_chat : ClientCall
sent_chat = record {
  method = lit "POST";
  target = lit "http://u" ++ lit "/v1/chat?x";
  headers = (lit "accept", lit "a") ∷ [];
  body = lit "hi";
}

abbrev bad_gateway : Response
bad_gateway = error 502 (lit "upstream") (lit "the model server is not answering yet")

chat_sent : proxy toy_libraries send gate chat ≡ (some sent_chat, bad_gateway)
unfolding proxy admit starts_with lit is_none allows authorization_of get_header strip_prefix trim
    contains_hash as_bytes read_body path_or copy_headers error pass_back is_dropped
chat_sent = refl

proxy_guarded_example :
    (starts_with (lit "/v1/") chat.path ≡ true)
    × (gate.served_model ≢ none)
    × (allows toy gate.tokens (authorization_of toy_libraries chat) ≡ true)
    × (sent_chat.method ≡ chat.method)
    × (sent_chat.target ≡ gate.upstream ++ path_or chat.path chat.path_and_query)
    × All (λ h. stays dropped_request_headers h ≡ true) sent_chat.headers
    × (chat.body ≡ some sent_chat.body)
    × (length sent_chat.body ≤ max_request_bytes)
    × (bad_gateway ≡ pass_back (send sent_chat))
proxy_guarded_example = proxy_guarded toy_libraries send gate chat sent_chat bad_gateway chat_sent

abbrev unset : Env
unset name = err not_present

abbrev missing : Files
missing path = err not_found

abbrev addr : SocketAddr
addr = ([], 8443)

abbrev started : Gate
started = record {
  gpu = helper (lit "/usr/local/lib/mero-inference/gpu-evidence");
  spki_sha256 = [];
  config_json = [];
  served_model = none;
  tokens = record { hashes = [] };
  upstream = lit "http://127.0.0.1:8000";
}

start_ok : start toy_libraries (λ s. some addr) unset missing (ok []) (ok tt) ≡ ok (addr, started)
unfolding start read_or_empty read_optional parse_tokens insert_all token_values split unwrap_or
    new_gate served_model_of env_or lit trim_end_slashes var_ok
start_ok = refl

start-closed_example : proxy toy_libraries send started chat ≡ (
  none,
  if starts_with (lit "/v1/") chat.path && not (is_none started.served_model)
      then unauthorized_response
      else error 404 (lit "not_found") (lit "no such route"),
)
start-closed_example =
    start-closed toy_libraries (λ s. some addr) unset missing (ok []) (ok tt) addr started start_ok
      send chat refl

start-measures_example :
    proxy toy_libraries send started chat
    ≡ (none, error 404 (lit "not_found") (lit "no such route"))
start-measures_example =
    start-measures toy_libraries (λ s. some addr) unset missing (ok []) (ok tt) addr started
      start_ok send chat refl
