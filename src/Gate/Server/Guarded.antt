-- ===== src/Gate/Server/Guarded.antt =====
-- mero-inference-gate/src/server.rs, `proxy`: which calls of its HTTP client it makes.
use mero_tee.Prelude.{
  ◌≤◌, ◌≡◌, refl, sym, ◌∙◌, ap, subst, inl, inr, ◌≢◌, Bool, true, false, not, ◌&&◌, Option, none,
  some, List, [], ◌∷◌, ◌++◌, filter, All, length, arith, Bool-cases, if◌then◌else◌,
}
use mero_tee.Text.{Str, Bytes, lit, starts_with}
use mero_tee.Errors.{Result, ok, Result-cases}
use mero_tee.Gate.{Libraries}
use mero_tee.Gate.Tokens.{allows}
use mero_tee.Gate.Server.{
  Gate, Header, Request, Response, ClientCall, UpstreamAnswer, admit, proxy, is_none, is_dropped,
  copy_headers, dropped_request_headers, max_request_bytes, authorization_of, read_body, path_or,
  pass_back, error, unauthorized_response,
}

append_snoc : (a : List Header) (h : Header) (b : List Header) → (a ++ h ∷ []) ++ b ≡ a ++ (h ∷ b)
append_snoc [] h b = refl
append_snoc (x ∷ a) h b = ap (◌∷◌ x) (append_snoc a h b)

append_nil : (a : List Header) → a ++ [] ≡ a
append_nil [] = refl
append_nil (x ∷ a) = ap (◌∷◌ x) (append_nil a)

filter-kept :
    (p : Header → Bool) (h : Header) (hs : List Header)
    → p h ≡ true
    → filter p (h ∷ hs) ≡ h ∷ filter p hs
filter-kept p h hs e = rw (filter, e) refl

filter-out :
    (p : Header → Bool) (h : Header) (hs : List Header)
    → p h ≡ false
    → filter p (h ∷ hs) ≡ filter p hs
filter-out p h hs e = rw (filter, e) refl

All-filter : (p : Header → Bool) (hs : List Header) → All (λ h. p h ≡ true) (filter p hs)
All-filter p [] = tt
All-filter p (h ∷ hs) = elim (Bool-cases (p h)) [
  | inl kept ↦ rw (filter-kept p h hs kept) (kept, All-filter p hs)
  | inr out ↦ rw (filter-out p h hs out) (All-filter p hs)
]

abbrev pub stays : List Str → Header → Bool
stays dropped h = not (is_dropped dropped h)

copy_headers-step :
    (h : Header) (from to : List Header) (dropped : List Str)
    → copy_headers (h ∷ from) to dropped ≡ (
        if is_dropped dropped h
        then copy_headers from to dropped
        else copy_headers from (to ++ h ∷ []) dropped)
unfolding copy_headers
copy_headers-step h from to dropped = refl

-- The headers copied are the ones that are not dropped, in their order.
pub copy_headers-filter :
    (from to : List Header) (dropped : List Str)
    → copy_headers from to dropped ≡ to ++ filter (stays dropped) from
unfolding copy_headers
copy_headers-filter [] to dropped = sym (append_nil to)
copy_headers-filter (h ∷ from) to dropped = elim (Bool-cases (is_dropped dropped h)) [
  | inl out ↦
      copy_headers-step h from to dropped
      ∙ rw (out, filter-out (stays dropped) h from (ap not out))
          (copy_headers-filter from to dropped)
  | inr kept ↦
      copy_headers-step h from to dropped
      ∙ rw (kept, filter-kept (stays dropped) h from (ap not kept))
          (copy_headers-filter from (to ++ h ∷ []) dropped ∙ append_snoc to h _)
]

module _ (l : Libraries) (send : ClientCall → Result Str UpstreamAnswer) (gate : Gate)
    (request : Request) where
  serves : (gate' : Gate) → is_none gate'.served_model ≡ false → gate'.served_model ≢ none
  unfolding is_none
  serves gate' h unserved = ground arith

  read_body-eq :
      (body : Option Bytes) (out : Bytes)
      → read_body body ≡ some out
      → (body ≡ some out) × (length out ≤ max_request_bytes)
  unfolding read_body
  read_body-eq none out h = absurd (ground arith)
  read_body-eq (some body) out h = ground arith

  module _ (sent : ClientCall) (h : admit l gate request ≡ ok sent) where
    admitted :
        (starts_with (lit "/v1/") request.path ≡ true)
        × (is_none gate.served_model ≡ false)
        × (allows l.crypto gate.tokens (authorization_of l request) ≡ true)
        × (sent.method ≡ request.method)
        × (sent.target ≡ gate.upstream ++ path_or request.path request.path_and_query)
        × (sent.headers ≡ copy_headers request.headers [] dropped_request_headers)
        × (read_body request.body ≡ some sent.body)
    unfolding admit
    admitted = ground arith

    -- What is forwarded of a request that was admitted.
    forwarded :
        (starts_with (lit "/v1/") request.path ≡ true)
        × (gate.served_model ≢ none)
        × (allows l.crypto gate.tokens (authorization_of l request) ≡ true)
        × (sent.method ≡ request.method)
        × (sent.target ≡ gate.upstream ++ path_or request.path request.path_and_query)
        × All (λ h. stays dropped_request_headers h ≡ true) sent.headers
        × (request.body ≡ some sent.body)
        × (length sent.body ≤ max_request_bytes)
    forwarded =
        let (path, served, allowed, method, url, headers, body) = admitted in
        let (whole, small) = read_body-eq request.body sent.body body in
        let copied = headers ∙ copy_headers-filter request.headers [] dropped_request_headers in
        (
          path,
          serves gate served,
          allowed,
          method,
          url,
          subst (All (λ h. stays dropped_request_headers h ≡ true)) (sym copied)
              (All-filter (stays dropped_request_headers) request.headers),
          whole,
          small,
        )

  -- The proxy calls its HTTP client only for a request whose path begins with /v1/, on a gate that
  -- serves a model, with an accepted token. The call's target is the model server's address and the
  -- request's path and query, unchanged; its method and its body, of at most 32 MiB, are the
  -- request's; and it carries none of the headers that are never passed on, the token among them.
  -- The answer of the client is what is passed back. What the client makes of the target, and
  -- whether it follows redirects, is not part of this.
  pub proxy_guarded :
      (sent : ClientCall) (response : Response)
      → proxy l send gate request ≡ (some sent, response)
      → (starts_with (lit "/v1/") request.path ≡ true)
        × (gate.served_model ≢ none)
        × (allows l.crypto gate.tokens (authorization_of l request) ≡ true)
        × (sent.method ≡ request.method)
        × (sent.target ≡ gate.upstream ++ path_or request.path request.path_and_query)
        × All (λ h. stays dropped_request_headers h ≡ true) sent.headers
        × (request.body ≡ some sent.body)
        × (length sent.body ≤ max_request_bytes)
        × (response ≡ pass_back (send sent))
  unfolding proxy
  proxy_guarded sent response h = elim (Result-cases (admit l gate request)) [
    | inr (early, refused) ↦ absurd (ground arith)
    | inl (out, admitted_) ↦
        let same : out ≡ sent = ground arith in
        let (path, served, allowed, method, target, headers, body, small) =
          forwarded sent (admitted_ ∙ ap ok same) in
        (path, served, allowed, method, target, headers, body, small, rw (sym same) (ground arith))
  ]

  -- Without a model, and for callers whose token is not accepted, the client is not called.
  pub proxy_closed :
      allows l.crypto gate.tokens (authorization_of l request) ≡ false
      → proxy l send gate request ≡ (
        none,
        if starts_with (lit "/v1/") request.path && not (is_none gate.served_model)
            then unauthorized_response
            else error 404 (lit "not_found") (lit "no such route"),
      )
  unfolding proxy admit starts_with lit
  proxy_closed refused =
      elim (Bool-cases (starts_with (lit "/v1/") request.path && not (is_none gate.served_model))) [
        | inl route ↦ rw (route, refused) refl
        | inr lost ↦ rw lost refl
      ]

  pub proxy_unserved :
      gate.served_model ≡ none
      → proxy l send gate request ≡ (none, error 404 (lit "not_found") (lit "no such route"))
  unfolding proxy admit is_none
  proxy_unserved unserved = ground arith
