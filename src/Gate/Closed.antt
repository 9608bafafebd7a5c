-- ===== src/Gate/Closed.antt =====
-- mero-inference-gate/src/main.rs and mero-inference-gate/src/server.rs: what a gate that started
-- without one of its files passes on.
use mero_tee.Prelude.{
  ◌≡◌, refl, sym, Bool, true, false, Option, [], arith, inl, inr, Option-cases, ◌&&◌, not, is_empty,
  if◌then◌else◌, none,
}
use mero_tee.Text.{Str, Bytes, lit, split, trim, starts_with}
use mero_tee.Errors.{Result, ok, err, ok-injective}
use mero_tee.Env.{Env, not_found}
use mero_tee.Config.{SocketAddr, unwrap_or}
use mero_tee.Gate.{Libraries}
use mero_tee.Gate.Tokens.{
  Tokens, allows, parse_tokens, token_values, insert_all, contains_hash, bearer,
}
use mero_tee.Gate.Server.{
  Gate, Request, ClientCall, UpstreamAnswer, is_none, new_gate, served_model_of, proxy, error,
  unauthorized_response,
}
use mero_tee.Gate.Server.Start.{
  Files, read_optional, read_or_empty, config_file, tokens_file, start,
}
use mero_tee.Gate.Server.Guarded.{proxy_closed, proxy_unserved}

read_or_empty-missing :
    (files : Files) (path : Str) → files path ≡ err not_found → read_or_empty files path ≡ ok []
unfolding read_or_empty read_optional unwrap_or
read_or_empty-missing files path h = ground arith

no_tokens :
    (l : Libraries) (tokens : Tokens) → parse_tokens l.crypto [] ≡ ok tokens → tokens.hashes ≡ []
unfolding parse_tokens insert_all token_values split
no_tokens l tokens h = cc

&&-false : (b : Bool) → (b && false) ≡ false
&&-false true = refl
&&-false false = refl

no_tokens-refuse :
    (l : Libraries) (tokens : Tokens) (authorization : Option Str)
    → tokens.hashes ≡ []
    → allows l.crypto tokens authorization ≡ false
unfolding allows contains_hash
no_tokens-refuse l tokens authorization h = elim (Option-cases (bearer authorization)) [
  | inl missing ↦ rw (allows, missing) refl
  | inr (raw, shown) ↦ rw (allows, shown, h) (&&-false (not (is_empty (trim raw))))
]

module _ (l : Libraries) (parse_addr : Str → Option SocketAddr) (env : Env) (files : Files)
    (spki : Result Str Bytes) (client : Result Str (Unit {0})) (addr : SocketAddr) (gate : Gate)
    (started : start l parse_addr env files spki client ≡ ok (addr, gate)) where
  started_tokens :
      (text : Str)
      → read_or_empty files (tokens_file env) ≡ ok text
      → parse_tokens l.crypto text ≡ ok gate.tokens
  unfolding start new_gate
  started_tokens text h = ground arith

  started_model :
      (text : Str)
      → read_or_empty files (config_file env) ≡ ok text
      → served_model_of l.json text ≡ ok gate.served_model
  unfolding start new_gate
  started_model text h = ground arith

  -- The proxy of a gate that started without a file of tokens never calls its HTTP client, whatever
  -- the request: under /v1/, where a model is served, the caller is told that a token is required, and
  -- elsewhere that there is no such route. (The gate's own /health is no part of the proxy.)
  pub start-closed :
      (send : ClientCall → Result Str UpstreamAnswer) (request : Request)
      → files (tokens_file env) ≡ err not_found
      → proxy l send gate request ≡ (
        none,
        if starts_with (lit "/v1/") request.path && not (is_none gate.served_model)
            then unauthorized_response
            else error 404 (lit "not_found") (lit "no such route"),
      )
  start-closed send request missing =
      let parsed = started_tokens [] (read_or_empty-missing files (tokens_file env) missing) in
      proxy_closed l send gate request
        (no_tokens-refuse l gate.tokens _ (no_tokens l gate.tokens parsed))

  -- The proxy of a gate that started without a configuration, on the machine that measures the image,
  -- answers every request that there is no such route, and never calls its HTTP client.
  pub start-measures :
      (send : ClientCall → Result Str UpstreamAnswer) (request : Request)
      → files (config_file env) ≡ err not_found
      → proxy l send gate request ≡ (none, error 404 (lit "not_found") (lit "no such route"))
  unfolding served_model_of
  start-measures send request missing =
      let model = started_model [] (read_or_empty-missing files (config_file env) missing) in
      proxy_unserved l send gate request (sym (ok-injective model))
