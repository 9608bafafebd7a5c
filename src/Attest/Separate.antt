-- ===== src/Attest/Separate.antt =====
-- mero-kms/src/handlers/attest.rs and mero-kms/src/cluster.rs: what /attest signs for a caller is
-- never what a join needs signed.
use mero_tee.Prelude.{
  ◌≡◌, refl, sym, ◌∙◌, ap, ◌≢◌, ◌⊎◌, inl, inr, Option, [], ◌∷◌, ◌++◌, take, drop, arith, Bool-cases,
}
use mero_tee.Text.{Bytes, as_bytes, lit}
use mero_tee.Errors.{ok, Result-cases}
use mero_tee.Crypto.{Crypto, Collision, apart_or_Collision}
use mero_tee.Backend.{TdxBackend}
use mero_tee.Sealed.{
  attest_domain, attest_domain_v2, attest_binding, attest_binding_v2, capabilities, transport_key,
}
use mero_tee.Attest.{KmsAttestRequest, plain_attest_domain, plain_attest_binding, bind}
use mero_tee.Cluster.{join_domain, give_domain, join_binding, give_binding}

-- The letter after `mero-kms/`.
letter : Bytes → Bytes
letter text = take 1 (drop 9 text)

abbrev IsAttestText : Bytes → Type 0
IsAttestText text = letter text ≡ b'a' ∷ []

abbrev IsClusterText : Bytes → Type 0
IsClusterText text = letter text ≡ b'c' ∷ []

kinds_differ : (x y : Bytes) → IsAttestText x → IsClusterText y → x ≢ y
kinds_differ x y hx hy same =
    let letters : ◌≡◌ {A = Bytes} (b'a' ∷ []) (b'c' ∷ []) = sym hx ∙ ap letter same ∙ hy in
    ground arith

plain-letter : (x : Bytes) → IsAttestText (plain_attest_domain ++ x)
unfolding plain_attest_domain lit letter
plain-letter x = refl

v1-letter : (x : Bytes) → IsAttestText (attest_domain ++ x)
unfolding attest_domain lit letter
v1-letter x = refl

v2-letter : (x : Bytes) → IsAttestText (attest_domain_v2 ++ x)
unfolding attest_domain_v2 lit letter
v2-letter x = refl

join-letter : (x : Bytes) → IsClusterText (join_domain ++ x)
unfolding join_domain lit letter
join-letter x = refl

give-letter : (x : Bytes) → IsClusterText (give_domain ++ x)
unfolding give_domain lit letter
give-letter x = refl

module _ (c : Crypto) where
  -- The hash of a text of the one kind.
  Attested : Bytes → Type 0
  Attested bound = (text : Bytes) × IsAttestText text × (bound ≡ c.sha256 text)

  bind-Attested :
      (backend : TdxBackend) (request : KmsAttestRequest) (given bound : Bytes)
      (public : Option Bytes)
      → bind c backend request given ≡ ok (bound, public)
      → Attested bound
  unfolding bind plain_attest_binding attest_binding attest_binding_v2 Attested
  bind-Attested backend request given bound public h = elim (Bool-cases request.transport_key) [
    | inr plain ↦ (plain_attest_domain ++ given, plain-letter given, ground arith)
    | inl keyed ↦ elim (Result-cases (transport_key c backend)) [
      | inr (e, f) ↦ absurd (ground arith)
      | inl (transport, made) ↦ elim (Bool-cases request.capabilities) [
        | inl v2 ↦ (
          attest_domain_v2 ++ (given ++ (transport.public ++ as_bytes capabilities)),
          v2-letter _,
          ground arith,
        )
        | inr v1 ↦ (attest_domain ++ (given ++ transport.public), v1-letter _, ground arith)
      ]
    ]
  ]

  Attested-apart :
      (bound y : Bytes) → Attested bound → IsClusterText y → (bound ≢ c.sha256 y) ⊎ Collision c
  unfolding Attested
  Attested-apart bound y (text, is_attest, made) is_cluster =
      elim (apart_or_Collision c text y (kinds_differ text y is_attest is_cluster)) [
        | inl apart ↦ inl (λ e. apart (sym made ∙ e))
        | inr collide ↦ inr collide
      ]

  -- The binding that /attest signs for a caller is neither the one that a joiner's quote is made
  -- for nor the one of an answer to a joiner, whatever keys, nonce and sealed root those carry,
  -- unless SHA-256 has a collision.
  pub bind-apart :
      (backend : TdxBackend) (request : KmsAttestRequest) (given bound : Bytes)
      (public : Option Bytes) (joiner giver nonce sealed : Bytes)
      → bind c backend request given ≡ ok (bound, public)
      → ((bound ≢ join_binding c joiner) × (bound ≢ give_binding c joiner giver nonce sealed))
        ⊎ Collision c
  unfolding join_binding give_binding
  bind-apart backend request given bound public joiner giver nonce sealed h =
      let attested = bind-Attested backend request given bound public h in
      elim (Attested-apart bound (join_domain ++ joiner) attested (join-letter joiner)) [
        | inr collide ↦ inr collide
        | inl join ↦ elim (Attested-apart bound _ attested (give-letter _)) [
          | inr collide ↦ inr collide
          | inl give ↦ inl (join, give)
        ]
      ]
