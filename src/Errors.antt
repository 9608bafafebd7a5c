-- ===== src/Errors.antt =====
-- mero-kms/src/handlers/errors.rs: the service's errors and their HTTP form, and the result type
-- that fallible code returns.
use mero_tee.Prelude.{◌≡◌, refl, ◌⊎◌, inl, inr, Option, none, some, Bool, true, false}
use mero_tee.Text.{Str, lit}

pub data Result {ℓ κ} (E : Type ℓ) (A : Type κ) : Type (ℓ ⊔ κ) where
  ok : A → Result E A
  err : E → Result E A

infixl 5 ◌>>=◌ ◌>>◌
abbrev pub ◌>>=◌ {ε ℓ κ} :
    {E : Type ε} {A : Type ℓ} {B : Type κ} → Result E A → (A → Result E B) → Result E B
err failure >>= rest = err failure
ok x >>= rest = rest x

abbrev pub ◌>>◌ {ε ℓ κ} :
    {E : Type ε} {A : Type ℓ} {B : Type κ} → Result E A → Result E B → Result E B
m >> k = m >>= λ _. k

abbrev pub map_err {ℓ κ ε} :
    {E : Type ℓ} {F : Type κ} {A : Type ε} → (E → F) → Result E A → Result F A
map_err f (ok a) = ok a
map_err f (err e) = err (f e)

-- `ok_or`
abbrev pub ok_or {ℓ κ} : {E : Type ℓ} {A : Type κ} → Option A → E → Result E A
ok_or none e = err e
ok_or (some a) e = ok a

-- `if !test { return Err(e) }`
abbrev pub ensure {ℓ} : {E : Type ℓ} → Bool → E → Result E (Unit {0})
ensure true e = ok tt
ensure false e = err e

pub ok-injective {ℓ κ} :
    {E : Type ℓ} {A : Type κ} {a b : A} → ◌≡◌ {A = Result E A} (ok a) (ok b) → a ≡ b
ok-injective h = cc

pub Result-cases {ℓ κ} :
    {E : Type ℓ} {A : Type κ} (r : Result E A) → ((a : A) × (r ≡ ok a)) ⊎ ((e : E) × (r ≡ err e))
Result-cases (ok a) = inl (a, refl)
Result-cases (err e) = inr (e, refl)

-- The inversion of a chain that succeeded.
pub >>=-eq-ok {ε ℓ κ} :
    {E : Type ε} {B : Type κ} {A : Type ℓ} (first : Result E A) (rest : A → Result E B) {out : B}
    → (first >>= rest) ≡ ok out
    → (x : A) × (first ≡ ok x) × (rest x ≡ ok out)
>>=-eq-ok (err failure) rest done = cc
>>=-eq-ok (ok x) rest done = (x, refl, done)

pub data ServiceError : Type 0 where
  invalid_base64 : Str → ServiceError
  invalid_peer_id : Str → ServiceError
  invalid_attestation_request : Str → ServiceError
  rate_limited : Str → ServiceError
  invalid_challenge : Str → ServiceError
  invalid_peer_public_key : Str → ServiceError
  invalid_signature : Str → ServiceError
  attestation_verification_failed : Str → ServiceError
  peer_identity_mismatch : ServiceError
  peer_id_mismatch : ServiceError
  tcb_status_rejected : Str → ServiceError
  measurement_policy_rejected : Str → ServiceError
  policy_not_ready : Str → ServiceError
  key_derivation_failed : Str → ServiceError
  invalid_mac : Str → ServiceError
  counters_unavailable : Str → ServiceError
  counter_limit : Str → ServiceError

abbrev pub Service {ℓ} : Type ℓ → Type ℓ
Service A = Result ServiceError A

-- The HTTP status codes that an error is mapped to.
pub data StatusCode : Type 0 where
  bad_request unauthorized forbidden too_many_requests : StatusCode
  internal_server_error service_unavailable : StatusCode

pub record ErrorResponse : Type 0 where
  pub error : Str
  pub details : Option Str

unfoldable pub into_parts : ServiceError → StatusCode × Str × Option Str
into_parts (invalid_base64 msg) = (bad_request, lit "invalid_request", some msg)
into_parts (invalid_peer_id msg) = (bad_request, lit "invalid_peer_id", some msg)
into_parts (invalid_attestation_request msg) =
    (bad_request, lit "invalid_attestation_request", some msg)
into_parts (rate_limited msg) = (too_many_requests, lit "rate_limited", some msg)
into_parts (invalid_challenge msg) = (unauthorized, lit "invalid_challenge", some msg)
into_parts (invalid_peer_public_key msg) = (bad_request, lit "invalid_peer_public_key", some msg)
into_parts (invalid_signature msg) = (unauthorized, lit "invalid_signature", some msg)
into_parts (attestation_verification_failed msg) =
    (unauthorized, lit "attestation_verification_failed", some msg)
into_parts peer_identity_mismatch = (
  unauthorized,
  lit "peer_identity_mismatch",
  some (lit "The provided peer public key does not correspond to the claimed peer ID"),
)
into_parts peer_id_mismatch = (
  unauthorized,
  lit "peer_id_mismatch",
  some (lit "The peer ID in the attestation does not match the claimed peer ID"),
)
into_parts (tcb_status_rejected msg) = (forbidden, lit "tcb_status_rejected", some msg)
into_parts (measurement_policy_rejected msg) =
    (forbidden, lit "measurement_policy_rejected", some msg)
into_parts (policy_not_ready msg) = (service_unavailable, lit "policy_not_ready", some msg)
into_parts (key_derivation_failed msg) =
    (internal_server_error, lit "key_derivation_failed", some msg)
into_parts (invalid_mac msg) = (unauthorized, lit "invalid_mac", some msg)
into_parts (counters_unavailable msg) = (service_unavailable, lit "counters_unavailable", some msg)
into_parts (counter_limit msg) = (forbidden, lit "counter_limit", some msg)

unfoldable pub into_response : ServiceError → StatusCode × ErrorResponse
unfolding into_parts
into_response e =
    let (status, tag, details) = into_parts e in (status, record { error = tag; details = details })
